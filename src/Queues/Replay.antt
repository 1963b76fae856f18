-- ===== src/Queues/Replay.antt =====
-- The buffer of streamed events of backend/infra/stream_buffer.py, from the first event of a trace.
use web3_real_estate.Base.{
  ℕ, suc, zero, ◌≤◌, ◌≡◌, refl, sym, ap, ◌∙◌, some, List, [], ◌∷◌, ◌++◌, arith,
}
use web3_real_estate.Base.Text.{Text}
use web3_real_estate.Base.Text
use web3_real_estate.Base.Lists.{take, take-take}
use web3_real_estate.Queues.{
  Key, Redis, IsRedis, Json, body_of, at_least, record_stream_payload, decoded, read_limit,
  read_stream_buffer,
}
use mathlib.Core.List.{reverse, reverse-cons}

module _ {S V : Type 0} (r : Redis S) (json : Json V) where
  -- The events of a trace, recorded one after the other.
  unfoldable pub record_all : ℕ → ℕ → List V → S → S
  record_all max_events trace [] s = s
  record_all max_events trace (v ∷ vs) s =
      record_all max_events trace vs (record_stream_payload r json max_events trace v s)

  -- No call to Redis raises while the events are recorded.
  abbrev pub Records : ℕ → ℕ → List V → S → Type 0
  Records max_events trace [] s = Unit {0}
  Records max_events trace (v ∷ vs) s =
      ((r.lpush (Key.streambuf trace) (body_of r json v) s).0 ≡ some tt)
      × ((r.ltrim (Key.streambuf trace) (at_least 10 max_events)
            (r.lpush (Key.streambuf trace) (body_of r json v) s).1).0
          ≡ some tt)
      × Records max_events trace vs (record_stream_payload r json max_events trace v s)

take-nil : (n : ℕ) → take {A = Text} n [] ≡ []
unfolding take
take-nil zero = refl
take-nil (suc n) = refl

take-cons_take : (n : ℕ) (x : Text) (l : List Text) → take n (x ∷ take n l) ≡ take n (x ∷ l)
unfolding take
take-cons_take zero x l = refl
take-cons_take (suc n) x l = rw (take-take n (suc n) l (omega arith)) refl

-- The events, the newest first, before those that were there.
abbrev pub newest_first : {V : Type 0} → List V → List V → List V
newest_first [] before = before
newest_first (v ∷ vs) before = newest_first vs (v ∷ before)

abbrev pub dumped : {V : Type 0} → Json V → List V → List Text
dumped json [] = []
dumped json (v ∷ vs) = json.dumps v ∷ dumped json vs

-- Texts that stand for their values, and are not cut.
abbrev pub AreShort : {V : Type 0} → Json V → List V → Type 0
AreShort json [] = Unit {0}
AreShort json (v ∷ vs) = (Text.length (json.dumps v) ≤ 16384) × AreShort json vs

module _ {S V : Type 0} (r : Redis S) (json : Json V) where
  short_body : (v : V) → Text.length (json.dumps v) ≤ 16384 → body_of r json v ≡ json.dumps v
  unfolding body_of
  short_body v h = ground (arith, h)

  decoded-append :
      (a b : List Text) → decoded r json (a ++ b) ≡ decoded r json a ++ decoded r json b
  unfolding decoded
  decoded-append [] b = refl
  decoded-append (x ∷ a) b = ground (arith, decoded-append a b)

  take-dumped : (n : ℕ) (vs : List V) → take n (dumped json vs) ≡ dumped json (take n vs)
  unfolding take
  take-dumped zero vs = refl
  take-dumped (suc n) [] = refl
  take-dumped (suc n) (v ∷ vs) = rw (take-dumped n vs) refl

  module _ (sound : (v : V) → json.loads (json.dumps v) ≡ some v) where
    decoded-one : (v : V) → decoded r json (json.dumps v ∷ []) ≡ v ∷ []
    decoded-one v = unfold decoded in ground (arith, sound v)

    decoded-reverse : (vs : List V) → decoded r json (reverse (dumped json vs)) ≡ reverse vs
    decoded-reverse [] = unfold decoded in refl
    decoded-reverse (v ∷ vs) =
        rw
          (
            reverse-cons (json.dumps v) (dumped json vs),
            decoded-append (reverse (dumped json vs)) (json.dumps v ∷ []),
            decoded-reverse vs,
            reverse-cons v vs,
          )
          (ap (λ l. reverse vs ++ l) (decoded-one v))

module _ {S V : Type 0} (r : Redis S) (json : Json V) (items : Key → S → List Text)
    (redis : IsRedis r items) (max_events trace : ℕ) where
  abbrev kept : ℕ
  kept = at_least 10 max_events

  recorded :
      (v : V) (s : S) (l : List Text)
      → (r.lpush (Key.streambuf trace) (body_of r json v) s).0 ≡ some tt
      → (r.ltrim
          (Key.streambuf trace)
          kept
          (r.lpush (Key.streambuf trace) (body_of r json v) s).1).0
        ≡ some tt
      → items (Key.streambuf trace) s ≡ take kept l
      → items (Key.streambuf trace) (record_stream_payload r json max_events trace v s)
        ≡ take kept (body_of r json v ∷ l)
  recorded v s l e f h =
      let whole : record_stream_payload r json max_events trace v s
          ≡ (r.ltrim (Key.streambuf trace) kept
              (r.lpush (Key.streambuf trace) (body_of r json v) s).1).1 =
        unfold record_stream_payload in ground (arith, e) in
      rw
        (
          whole,
          redis.trimmed (Key.streambuf trace) kept _ f,
          redis.pushed (Key.streambuf trace) (body_of r json v) s e,
          h,
        )
        (take-cons_take kept (body_of r json v) l)

  all_recorded :
      (vs before : List V) (s : S)
      → Records r json max_events trace vs s
      → AreShort json vs
      → items (Key.streambuf trace) s ≡ take kept (dumped json before)
      → items (Key.streambuf trace) (record_all r json max_events trace vs s)
        ≡ take kept (dumped json (newest_first vs before))
  unfolding record_all
  all_recorded [] before s done short h = h
  all_recorded (v ∷ vs) before s (e, f, more) (short, shorts) h =
      all_recorded vs (v ∷ before) _ more shorts
        (rw (recorded v s (dumped json before) e f h, short_body r json v short) refl)

  -- If Redis keeps its laws and none of the calls raises, the buffer was empty, texts stand for their
  -- events and none is longer than 16384 characters, and the reader's limit is within what is kept,
  -- then the events that are read back are the latest of those recorded, in the order in which they
  -- were recorded, as many as the limit asks for.
  pub read_stream_buffer_latest :
      (vs : List V) (s : S) (limit : ℕ) (raw : List Text)
      → ((v : V) → json.loads (json.dumps v) ≡ some v)
      → items (Key.streambuf trace) s ≡ []
      → Records r json max_events trace vs s
      → AreShort json vs
      → read_limit limit ≤ kept
      → (r.lrange
          (Key.streambuf trace)
          (read_limit limit)
          (record_all r json max_events trace vs s)).0
        ≡ some raw
      → (read_stream_buffer r json trace limit (record_all r json max_events trace vs s)).0
        ≡ reverse (take (read_limit limit) (newest_first vs []))
  read_stream_buffer_latest vs s limit raw sound empty done short fits e =
      let last : S = record_all r json max_events trace vs s in
      let n : ℕ = read_limit limit in
      let found : raw ≡ take n (dumped json (newest_first vs [])) =
        redis.ranged (Key.streambuf trace) n last raw e
        ∙ ap (take n) (all_recorded vs [] s done short (rw empty (sym (take-nil kept))))
        ∙ take-take n kept (dumped json (newest_first vs [])) fits in
      let whole : (read_stream_buffer r json trace limit last).0 ≡ decoded r json (reverse raw) =
        unfold read_stream_buffer in ground (arith, e) in
      rw (whole, found, take-dumped r json n (newest_first vs []))
        (decoded-reverse r json sound (take n (newest_first vs [])))
