-- ===== src/Speech/Letters.antt =====
-- The characters of a text that are no white space, under the cuts and strips of
-- backend/ai/chunk_buffer.py.
use web3_real_estate.Base.{
  ℕ, zero, suc, ◌≤◌, ◌<◌, ◌≡◌, refl, if◌then◌else◌, List, [], ◌∷◌, ◌++◌, arith,
}
use web3_real_estate.Base.Text.{Text, length, take, drop, is_space, strip_left, strip_right, strip}
use web3_real_estate.Speech.{cut}

-- What is heard of a text.
abbrev pub letters : Text → Text
letters [] = []
letters (c ∷ cs) = if is_space c then letters cs else c ∷ letters cs

abbrev pub all_letters : List Text → Text
all_letters [] = []
all_letters (t ∷ ts) = letters t ++ all_letters ts

pub append_assoc : (a b c : Text) → (a ++ b) ++ c ≡ a ++ (b ++ c)
append_assoc [] b c = refl
append_assoc (x ∷ a) b c = rw (append_assoc a b c) refl

pub append-nil : (a : Text) → a ++ [] ≡ a
append-nil [] = refl
append-nil (x ∷ a) = rw (append-nil a) refl

pub letters-append : (a b : Text) → letters (a ++ b) ≡ letters a ++ letters b
letters-append [] b = refl
letters-append (c ∷ a) b = ground (arith, letters-append a b)

pub all_letters-append : (a b : List Text) → all_letters (a ++ b) ≡ all_letters a ++ all_letters b
all_letters-append [] b = refl
all_letters-append (t ∷ a) b =
    rw (all_letters-append a b, append_assoc (letters t) (all_letters a) (all_letters b)) refl

letters-strip_left : (t : Text) → letters (strip_left t) ≡ letters t
unfolding strip_left
letters-strip_left [] = refl
letters-strip_left (c ∷ cs) = ground (arith, letters-strip_left cs)

letters-strip_right : (t : Text) → letters (strip_right t) ≡ letters t
unfolding strip_right
letters-strip_right [] = refl
letters-strip_right (c ∷ cs) = ground (arith, letters-strip_right cs)

pub letters-strip : (t : Text) → letters (strip t) ≡ letters t
unfolding strip
letters-strip t = rw (letters-strip_right (strip_left t), letters-strip_left t) refl

take-drop : (n : ℕ) (t : Text) → take n t ++ drop n t ≡ t
unfolding take drop
take-drop zero t = refl
take-drop (suc n) [] = refl
take-drop (suc n) (c ∷ cs) = rw (take-drop n cs) refl

pub letters-cut : (t : Text) (at : ℕ) → letters (cut t at).0 ++ letters (cut t at).1 ≡ letters t
unfolding cut
letters-cut t at =
    rw
      (
        letters-strip_right (take at t),
        letters-strip_left (drop at t),
        ← letters-append (take at t) (drop at t),
        take-drop at t,
      )
      refl

length-strip_left : (t : Text) → length (strip_left t) ≤ length t
unfolding strip_left length
length-strip_left [] = omega arith
length-strip_left (c ∷ cs) = ground (arith, length-strip_left cs)

pub length-strip_right : (t : Text) → length (strip_right t) ≤ length t
unfolding strip_right length
length-strip_right [] = omega arith
length-strip_right (c ∷ cs) = ground (arith, length-strip_right cs)

length-drop : (n : ℕ) (t : Text) → 0 < n → 0 < length t → length (drop n t) < length t
unfolding drop length
length-drop zero t h k = absurd (omega arith)
length-drop (suc n) [] h k = absurd (omega arith)
length-drop (suc zero) (c ∷ cs) h k = omega arith
length-drop (suc (suc n)) (c ∷ []) h k = omega arith
length-drop (suc (suc n)) (c ∷ d ∷ ds) h k =
    omega (arith, length-drop (suc n) (d ∷ ds) (omega arith) (omega arith))

length-take : (n : ℕ) (t : Text) → length (take n t) ≤ n
unfolding take length
length-take zero t = omega arith
length-take (suc n) [] = omega arith
length-take (suc n) (c ∷ cs) = omega (arith, length-take n cs)

-- A cut past the first character makes the buffer shorter.
pub length-cut_rest : (t : Text) (at : ℕ) → 0 < at → 0 < length t → length (cut t at).1 < length t
unfolding cut
length-cut_rest t at h k = omega (arith, length-strip_left (drop at t), length-drop at t)

pub length-cut_chunk : (t : Text) (at : ℕ) → length (cut t at).0 ≤ at
unfolding cut
length-cut_chunk t at = omega (arith, length-strip_right (take at t), length-take at t)
