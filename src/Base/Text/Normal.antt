-- ===== src/Base/Text/Normal.antt =====
-- Stripping and lowering are idempotent, and neither disturbs the other.
use web3_real_estate.Base.Tests.{Bool-cases}
use web3_real_estate.Base.Text.{Text, is_space, lower_char, lower, strip_left, strip_right, strip}
use Prim.Native.Nat.{ℕ}
use mathlib.Core.Path.{◌≡◌, refl}
use mathlib.Core.Logic.{inl, inr}
use mathlib.Core.Bool.{false}
use mathlib.Core.List.{[], ◌∷◌}
use native.Mathlib.Omega.{arith}

lower_char_again : (c : ℕ) → lower_char (lower_char c) ≡ lower_char c
unfolding lower_char
lower_char_again c = ground arith

is_space-lower_char : (c : ℕ) → is_space (lower_char c) ≡ is_space c
unfolding lower_char is_space
is_space-lower_char c = ground arith

pub lower_again : (t : Text) → lower (lower t) ≡ lower t
unfolding lower
lower_again [] = refl
lower_again (c ∷ cs) = rw (lower_char_again c, lower_again cs) refl

strip_left-lower : (t : Text) → strip_left (lower t) ≡ lower (strip_left t)
unfolding lower strip_left
strip_left-lower [] = refl
strip_left-lower (c ∷ cs) = ground (arith, is_space-lower_char c, strip_left-lower cs)

strip_right-lower : (t : Text) → strip_right (lower t) ≡ lower (strip_right t)
unfolding lower strip_right
strip_right-lower [] = refl
strip_right-lower (c ∷ cs) = ground (arith, is_space-lower_char c, strip_right-lower cs)

pub strip-lower : (t : Text) → strip (lower t) ≡ lower (strip t)
unfolding strip
strip-lower t = rw (strip_left-lower t, strip_right-lower (strip_left t)) refl

strip_right_again : (t : Text) → strip_right (strip_right t) ≡ strip_right t
unfolding strip_right
strip_right_again [] = refl
strip_right_again (c ∷ cs) = ground (arith, strip_right_again cs)

strip_left_again : (t : Text) → strip_left (strip_left t) ≡ strip_left t
unfolding strip_left
strip_left_again [] = refl
strip_left_again (c ∷ cs) = ground (arith, strip_left_again cs)

kept_head :
    (c : ℕ) (cs : Text)
    → is_space c ≡ false
    → strip_left (strip_right (c ∷ cs)) ≡ strip_right (c ∷ cs)
unfolding strip_left strip_right
kept_head c cs e = ground (arith, strip_right cs)

strip_left-strip_right :
    (t : Text) → strip_left (strip_right (strip_left t)) ≡ strip_right (strip_left t)
unfolding strip_left strip_right
strip_left-strip_right [] = refl
strip_left-strip_right (c ∷ cs) = elim (Bool-cases (is_space c)) [
  | inl e ↦ rw (e) (strip_left-strip_right cs)
  | inr e ↦ rw (e) (kept_head c cs e)
]

pub strip_again : (t : Text) → strip (strip t) ≡ strip t
unfolding strip
strip_again t =
    ground (arith, strip_left_again t, strip_right_again (strip_left t), strip_left-strip_right t)
