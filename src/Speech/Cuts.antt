-- ===== src/Speech/Cuts.antt =====
-- Where `SmartChunkBuffer._extract_one` of backend/ai/chunk_buffer.py cuts.
use web3_real_estate.Base.{
  ℕ, zero, suc, ◌+◌, ◌≤◌, ◌<◌, ◌≡◌, refl, Bool, false, Option, none, some, [], ◌∷◌, arith,
}
use web3_real_estate.Base.Text.{Text, length}
use web3_real_estate.Speech.{
  hard_terminators, soft_terminators, holds_at, find_last_in, rfind_space, past, forced_cut,
  cut_position,
}

-- No character of the text ends a sentence.
abbrev pub NoHardTerminator : Text → Type 0
NoHardTerminator [] = Unit {0}
NoHardTerminator (c ∷ cs) = (hard_terminators c ≡ false) × NoHardTerminator cs

holds_at-none : (t : Text) (i : ℕ) → NoHardTerminator t → holds_at hard_terminators t i ≡ false
unfolding holds_at
holds_at-none [] i h = refl
holds_at-none (c ∷ cs) zero h = h.0
holds_at-none (c ∷ cs) (suc i) h = holds_at-none cs i h.1

pub find_last_in-none :
    (t : Text) (n : ℕ) → NoHardTerminator t → find_last_in t hard_terminators n ≡ none
unfolding find_last_in
find_last_in-none t zero h = refl
find_last_in-none t (suc i) h = rw (holds_at-none t i h) (find_last_in-none t i h)

pub past-find_last_in : (t : Text) (p : ℕ → Bool) (n : ℕ) → past (find_last_in t p n) ≤ n
unfolding find_last_in
past-find_last_in t p zero = omega arith
past-find_last_in t p (suc i) = ground (arith, past-find_last_in t p i)

pub past-rfind_space : (t : Text) (lo n : ℕ) → past (rfind_space t lo n) ≤ n
unfolding rfind_space
past-rfind_space t lo zero = omega arith
past-rfind_space t lo (suc i) = ground (arith, past-rfind_space t lo i)

pub forced_cut_bounds :
    (o : Option ℕ) (m : ℕ) → 0 < m → past o ≤ m + 1 → (0 < forced_cut o m) × (forced_cut o m ≤ m)
unfolding forced_cut
forced_cut_bounds none m h k = ground arith
forced_cut_bounds (some ws) m h k = ground arith

-- A cut is past the first character of a text that is not empty.
pub cut_position_positive :
    (lo hi : ℕ) (t : Text) (at : ℕ)
    → 0 < lo
    → 0 < hi
    → cut_position lo hi t ≡ some at
    → (0 < at) × (0 < length t)
unfolding cut_position
cut_position_positive lo hi t at h k e =
    ground
      (arith, e, forced_cut_bounds (rfind_space t lo (hi + 1)) hi, past-rfind_space t lo (hi + 1))

-- With no end of a sentence in the buffer, a cut is at the upper limit at most.
pub cut_position_bound :
    (lo hi : ℕ) (t : Text) (at : ℕ)
    → 0 < lo
    → 0 < hi
    → NoHardTerminator t
    → cut_position lo hi t ≡ some at
    → at ≤ hi
unfolding cut_position
cut_position_bound lo hi t at h k open_end e = ground (
  arith,
  e,
  find_last_in-none t (length t) open_end,
  past-find_last_in t soft_terminators (length t),
  forced_cut_bounds (rfind_space t lo (hi + 1)) hi,
  past-rfind_space t lo (hi + 1),
)
