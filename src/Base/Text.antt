-- ===== src/Base/Text.antt =====
-- Text as the list of its code points, with the methods of `str` that the program calls.
use web3_real_estate.Base.Tests.{eqb, leb, ltb, if◌then◌else◌, Eq}
use Prim.Native.Nat.{ℕ, zero, suc, ◌+◌}
use mathlib.Core.Path.{◌≡◌, refl}
use mathlib.Core.Logic.{◌↔◌}
use mathlib.Core.Bool.{Bool, true, false, ◌&&◌, ◌||◌}
use mathlib.Core.List.{List, [], ◌∷◌, ◌++◌}
use native.Mathlib.Omega.{arith}
pub mod Normal

abbrev pub Text : Type 0
Text = List ℕ

unfoldable pub text_beq : Text → Text → Bool
text_beq [] [] = true
text_beq [] (c ∷ cs) = false
text_beq (c ∷ cs) [] = false
text_beq (c ∷ cs) (d ∷ ds) = eqb c d && text_beq cs ds

pub text_beq_iff : (a b : Text) → (text_beq a b ≡ true) ↔ (a ≡ b)
unfolding text_beq
text_beq_iff [] [] = ground arith
text_beq_iff [] (c ∷ cs) = ground arith
text_beq_iff (c ∷ cs) [] = ground arith
text_beq_iff (c ∷ cs) (d ∷ ds) = ground (arith, text_beq_iff cs ds)

instance abbrev pub text_eq : Eq Text
text_eq = record { same = text_beq; same_iff = text_beq_iff }

-- `str.isspace` of one character
unfoldable pub is_space : ℕ → Bool
is_space c =
    leb 9 c && leb c 13
    || leb 28 c && leb c 32
    || eqb c 133
    || eqb c 160
    || eqb c 5760
    || leb 8192 c && leb c 8202
    || eqb c 8232
    || eqb c 8233
    || eqb c 8239
    || eqb c 8287
    || eqb c 12288

-- `str.lower` of an ASCII character; other characters are kept.
unfoldable pub lower_char : ℕ → ℕ
lower_char c = if leb 65 c && leb c 90 then c + 32 else c

unfoldable pub lower : Text → Text
lower [] = []
lower (c ∷ cs) = lower_char c ∷ lower cs

unfoldable pub strip_left : Text → Text
strip_left [] = []
strip_left (c ∷ cs) = if is_space c then strip_left cs else c ∷ cs

unfoldable pub strip_right : Text → Text
strip_right [] = []
strip_right (c ∷ cs) =
    let rest = strip_right cs in
    elim rest [ [] ↦ if is_space c then [] else c ∷ [] | d ∷ ds ↦ c ∷ d ∷ ds ]

-- `str.strip`
unfoldable pub strip : Text → Text
strip t = strip_right (strip_left t)

unfoldable pub length : Text → ℕ
length [] = 0
length (c ∷ cs) = 1 + length cs

unfoldable pub take : ℕ → Text → Text
take zero t = []
take n [] = []
take (suc n) (c ∷ cs) = c ∷ take n cs

unfoldable pub drop : ℕ → Text → Text
drop zero t = t
drop n [] = []
drop (suc n) (c ∷ cs) = drop n cs

-- `" ".join(t.split())`: after a word has begun, a gap becomes one space before the next word.
unfoldable pub join_words : Bool → Bool → Text → Text
join_words begun gap [] = []
join_words begun gap (c ∷ cs) = elim (is_space c) [
  | true ↦ join_words begun true cs
  | false ↦ if begun && gap then 32 ∷ c ∷ join_words true false cs else c ∷ join_words true false cs
]
