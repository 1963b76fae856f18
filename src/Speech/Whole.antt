-- ===== src/Speech/Whole.antt =====
-- Whole turns of the buffer of backend/ai/chunk_buffer.py: the loop of `feed`, and `feed` and `flush`
-- over the tokens of an answer.
use web3_real_estate.Base.{
  ℕ, zero, suc, ◌≤◌, ◌<◌, ◌≡◌, refl, sym, ◌∙◌, none, some, List, [], ◌∷◌, ◌++◌, arith, inl, inr,
  Option-cases,
}
use web3_real_estate.Base.Text.{Text, length, strip}
use web3_real_estate.Speech.{
  SmartChunkBuffer, cut_position, cut, extract_one, drain, feed, flush, speak,
}
use web3_real_estate.Speech.Letters.{
  letters, all_letters, append_assoc, append-nil, letters-append, all_letters-append, letters-strip,
  letters-cut, length-cut_rest, length-cut_chunk,
}
use web3_real_estate.Speech.Cuts.{NoHardTerminator, cut_position_positive, cut_position_bound}

-- The loop of `feed` ends whenever both limits are positive: as many rounds as the buffer has
-- characters, and one more, are enough. It stops at a buffer from which nothing more is cut, and
-- no character but white space is lost or moved.
drain_total :
    (fuel lo hi : ℕ) (t : Text)
    → 0 < lo
    → 0 < hi
    → length t < fuel
    → (chunks : List Text) × (rest : Text) × (drain fuel lo hi t ≡ some (chunks, rest))
      × (extract_one lo hi rest ≡ none)
      × (all_letters chunks ++ letters rest ≡ letters t)
unfolding drain extract_one
drain_total zero lo hi t h k m = absurd (omega arith)
drain_total (suc fuel) lo hi t h k m = elim (Option-cases (cut_position lo hi t)) [
  | inl e ↦ ([], t, ground (arith, e), ground (arith, e), refl)
  | inr (at, e) ↦
      let (p, q) = cut_position_positive lo hi t at h k e in
      let (chunks, rest, d, x, l) =
        drain_total fuel lo hi (cut t at).1 h k (omega (arith, length-cut_rest t at p q)) in
      (
        (cut t at).0 ∷ chunks,
        rest,
        ground (arith, e, d),
        x,
        rw (append_assoc (letters (cut t at).0) (all_letters chunks) (letters rest), l)
            (letters-cut t at),
      )
]

-- A call of `feed` on positive limits returns: it keeps the limits, and the chunks and what stays in
-- the buffer have the letters of what was there and of the token, in order.
feed_total :
    (token : Text) (b : SmartChunkBuffer)
    → 0 < b.min_chars
    → 0 < b.max_chars
    → (chunks : List Text) × (rest : Text) × (feed token b ≡ some (chunks, record b { buf = rest }))
      × (all_letters chunks ++ letters rest ≡ letters b.buf ++ letters token)
unfolding feed
feed_total [] b h k = ([], b.buf, refl, sym (append-nil (letters b.buf)))
feed_total (c ∷ cs) b h k =
    let whole = b.buf ++ c ∷ cs in
    let (chunks, rest, d, x, l) =
      drain_total (suc (length whole)) b.min_chars b.max_chars whole h k (omega arith) in
    (chunks, rest, ground (arith, d), l ∙ letters-append b.buf (c ∷ cs))

-- A turn with positive limits ends, and the phrases that are spoken have the letters of the buffer
-- and of all tokens, in order: nothing but white space is lost, added or moved.
pub speak_whole :
    (tokens : List Text) (b : SmartChunkBuffer)
    → 0 < b.min_chars
    → 0 < b.max_chars
    → (phrases : List Text) × (speak tokens b ≡ some phrases)
      × (all_letters phrases ≡ letters b.buf ++ all_letters tokens)
unfolding speak flush
speak_whole [] b h k = (strip b.buf ∷ [], refl, rw (letters-strip b.buf) refl)
speak_whole (token ∷ tokens) b h k =
    let (chunks, rest, f, l) = feed_total token b h k in
    let (later, s, m) = speak_whole tokens (record b { buf = rest }) h k in
    (
      chunks ++ later,
      ground (arith, f, s),
      rw
          (
            all_letters-append chunks later,
            m,
            ← append_assoc (all_letters chunks) (letters rest) (all_letters tokens),
            l,
          )
          (append_assoc (letters b.buf) (letters token) (all_letters tokens)),
    )

-- A chunk that is cut while the buffer holds no end of a sentence is no longer than the upper limit.
extract_one_bound :
    (lo hi : ℕ) (t chunk rest : Text)
    → 0 < lo
    → 0 < hi
    → NoHardTerminator t
    → extract_one lo hi t ≡ some (chunk, rest)
    → length chunk ≤ hi
unfolding extract_one
extract_one_bound lo hi t chunk rest h k open_end e = elim (Option-cases (cut_position lo hi t)) [
  | inl f ↦ ground (arith, e, f)
  | inr (at, f) ↦
      ground (arith, e, f, cut_position_bound lo hi t at h k open_end f, length-cut_chunk t at)
]
