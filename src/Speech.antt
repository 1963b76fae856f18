-- ===== src/Speech.antt =====
-- The buffer that cuts the assistant's text into phrases for the speech engine:
-- backend/ai/chunk_buffer.py.
use web3_real_estate.Base.{
  ℕ, zero, suc, ◌+◌, Bool, true, false, ◌||◌, leb, ltb, eqb, if◌then◌else◌, Option, none, some,
  List, [], ◌∷◌, ◌++◌,
}
use web3_real_estate.Base.Text.{Text, length, take, drop, strip_left, strip_right, strip}
pub mod Letters
pub mod Cuts
pub mod Whole

-- `SmartChunkBuffer`; `buf` is the field `_buf`.
pub record SmartChunkBuffer : Type 0 where
  pub min_chars : ℕ
  pub max_chars : ℕ
  pub buf : Text

-- `in ".!?"`
unfoldable pub hard_terminators : ℕ → Bool
hard_terminators c = eqb c 46 || eqb c 33 || eqb c 63

-- `in ",;:"`
unfoldable pub soft_terminators : ℕ → Bool
soft_terminators c = eqb c 44 || eqb c 59 || eqb c 58

-- The test of `buf[i]`, false past the end.
unfoldable pub holds_at : (ℕ → Bool) → Text → ℕ → Bool
holds_at p [] i = false
holds_at p (c ∷ cs) zero = p c
holds_at p (c ∷ cs) (suc i) = holds_at p cs i

-- Down from `end - 1`, with none for -1
unfoldable pub find_last_in : Text → (ℕ → Bool) → ℕ → Option ℕ
find_last_in buf chars zero = none
find_last_in buf chars (suc i) =
    let rest = find_last_in buf chars i in if holds_at chars buf i then some i else rest

-- `buf.rfind(" ", start, end)`
unfoldable pub rfind_space : Text → ℕ → ℕ → Option ℕ
rfind_space buf start zero = none
rfind_space buf start (suc i) =
    let rest = rfind_space buf start i in
    if leb start i then (if holds_at (eqb 32) buf i then some i else rest) else none

-- `idx + 1`, which is 0 for -1
abbrev pub past : Option ℕ → ℕ
past none = 0
past (some i) = suc i

-- `ws if ws > 0 else max_chars`
unfoldable pub forced_cut : Option ℕ → ℕ → ℕ
forced_cut none max_chars = max_chars
forced_cut (some ws) max_chars = if ltb 0 ws then ws else max_chars

-- Where `_extract_one` cuts, if it does.
unfoldable pub cut_position : ℕ → ℕ → Text → Option ℕ
cut_position min_chars max_chars buf =
    let n = length buf in
    if ltb n min_chars
    then none
    else if leb min_chars (past (find_last_in buf hard_terminators n))
    then some (past (find_last_in buf hard_terminators n))
    else if leb max_chars n
    then some (forced_cut (rfind_space buf min_chars (max_chars + 1)) max_chars)
    else if leb min_chars (past (find_last_in buf soft_terminators n))
    then some (past (find_last_in buf soft_terminators n))
    else none

-- The chunk, and what stays in the buffer
unfoldable pub cut : Text → ℕ → Text × Text
cut buf at = (strip_right (take at buf), strip_left (drop at buf))

unfoldable pub extract_one : ℕ → ℕ → Text → Option (Text × Text)
extract_one min_chars max_chars buf = elim (cut_position min_chars max_chars buf) [
  | none ↦ none
  | some at ↦ some (cut buf at)
]

-- The loop of `feed`, on fuel; none if the fuel runs out.
unfoldable pub drain : ℕ → ℕ → ℕ → Text → Option (List Text × Text)
drain zero min_chars max_chars buf = none
drain (suc fuel) min_chars max_chars buf = elim (extract_one min_chars max_chars buf) [
  | none ↦ some ([], buf)
  | some (chunk, rest) ↦ elim (drain fuel min_chars max_chars rest) [
    | none ↦ none
    | some (chunks, last) ↦ some (chunk ∷ chunks, last)
  ]
]

unfoldable pub feed : Text → SmartChunkBuffer → Option (List Text × SmartChunkBuffer)
feed [] b = some ([], b)
feed (c ∷ cs) b =
    elim (drain (suc (length (b.buf ++ c ∷ cs))) b.min_chars b.max_chars (b.buf ++ c ∷ cs)) [
      | none ↦ none
      | some (chunks, rest) ↦ some (chunks, record b { buf = rest })
    ]

-- The empty text stands for `None`.
unfoldable pub flush : SmartChunkBuffer → Text × SmartChunkBuffer
flush b = (strip b.buf, record b { buf = [] })

-- A turn of the assistant: each token is fed, and what is left is flushed.
unfoldable pub speak : List Text → SmartChunkBuffer → Option (List Text)
speak [] b = some ((flush b).0 ∷ [])
speak (token ∷ tokens) b = elim (feed token b) [
  | none ↦ none
  | some (chunks, b') ↦ elim (speak tokens b') [ none ↦ none | some later ↦ some (chunks ++ later) ]
]
