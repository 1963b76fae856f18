-- ===== src/Auth/Address.antt =====
-- Addresses and roles as text.
use web3_real_estate.Base.{
  ℕ, Bool, true, false, ◌&&◌, ◌||◌, not, eqb, leb, if◌then◌else◌, Option, none, some, [], ◌∷◌, ◌==◌,
}
use web3_real_estate.Base.Text.{Text, text_eq, strip, lower, length, join_words, take}

unfoldable pub normalize_address : Text → Text
normalize_address addr = lower (strip addr)

unfoldable pub is_hex_digit : ℕ → Bool
is_hex_digit c = leb 48 c && leb c 57 || leb 65 c && leb c 70 || leb 97 c && leb c 102

-- What `int(a, 16)` takes after the prefix `0x`: digits, with single underscores before digits.
-- The flag says whether the character before is an underscore.
unfoldable pub is_hex_number : Bool → Text → Bool
is_hex_number after_underscore [] = not after_underscore
is_hex_number after_underscore (c ∷ cs) = elim (is_hex_digit c) [
  | true ↦ is_hex_number false cs
  | false ↦ eqb c 95 && not after_underscore && is_hex_number true cs
]

unfoldable pub has_hex_prefix : Text → Bool
has_hex_prefix (a ∷ b ∷ cs) = eqb a 48 && eqb b 120 && is_hex_number false cs
has_hex_prefix t = false

unfoldable pub is_valid_eth_address : Text → Bool
is_valid_eth_address addr = let a = strip addr in eqb (length a) 42 && has_hex_prefix a

abbrev pub admin : Text
admin = 97 ∷ 100 ∷ 109 ∷ 105 ∷ 110 ∷ []

abbrev pub property_owner : Text
property_owner =
    112 ∷ 114 ∷ 111 ∷ 112 ∷ 101 ∷ 114 ∷ 116 ∷ 121 ∷ 95 ∷ 111 ∷ 119 ∷ 110 ∷ 101 ∷ 114 ∷ []

abbrev pub investor : Text
investor = 105 ∷ 110 ∷ 118 ∷ 101 ∷ 115 ∷ 116 ∷ 111 ∷ 114 ∷ []

abbrev pub tenant : Text
tenant = 116 ∷ 101 ∷ 110 ∷ 97 ∷ 110 ∷ 116 ∷ []

unfoldable pub canonical_role : Text → Text
canonical_role role = let r = lower (strip role) in if r == admin then property_owner else r

-- `role in VALID_ROLES`
unfoldable pub is_valid_role : Text → Bool
is_valid_role role = role == property_owner || role == investor || role == tenant

-- The prefix of a display id: ADM, TEN or INV.
pub data RolePrefix : Type 0 where
  adm ten inv : RolePrefix

unfoldable pub role_prefix : Text → RolePrefix
role_prefix role =
    let r = canonical_role role in
    if r == property_owner
    then RolePrefix.adm
    else if r == tenant
    then RolePrefix.ten
    else RolePrefix.inv

-- At most 160 characters; a blank name is none.
unfoldable pub clean_full_name : Text → Option Text
clean_full_name value = elim (take 160 (join_words false false value)) [
  | [] ↦ none
  | c ∷ cs ↦ some (c ∷ cs)
]
