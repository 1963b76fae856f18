-- ===== src/Tests/Names.antt =====
-- Runs of the theorems on the names of properties.
use web3_real_estate.Base.{ℕ, ◌≡◌, ◌≢◌, refl, true, some, List, [], ◌∷◌, arith}
use web3_real_estate.Base.Text.{Text, text_eq, strip, strip_left, strip_right, is_space, text_beq}
use web3_real_estate.Names.{
  Listing, found, allowed, by_id, resolve_by_id_or_name, resolve_allowed_property_from_items,
  resolve_property_query_from_items, list_disambiguation_candidate_properties,
}
use web3_real_estate.Names.Found.{Mem, resolve_allowed_property_from_items_sound}
use web3_real_estate.Names.Exact.{resolve_property_query_from_items_exact}

-- "a" and "b"
abbrev villa : Listing
villa = record { id = 1; name = 97 ∷ []; location = 99 ∷ []; token_symbol = 120 ∷ [] }

abbrev tower : Listing
tower = record { id = 2; name = 98 ∷ []; location = 99 ∷ []; token_symbol = 121 ∷ [] }

abbrev both : List Listing
both = villa ∷ tower ∷ []

abbrev same : Text → Text
same t = t

abbrev never : Text → Text → ℕ
never a b = 0

second :
    resolve_allowed_property_from_items same never (λ q. some 2) (λ x. true) both (98 ∷ [])
    ≡ found tower
unfolding resolve_allowed_property_from_items strip strip_left strip_right is_space text_beq allowed
    resolve_by_id_or_name by_id
second = refl

resolve_allowed_property_from_items_sound_example : Mem tower both × (true ≡ true)
resolve_allowed_property_from_items_sound_example =
    resolve_allowed_property_from_items_sound same never (λ q. some 2) (λ x. true) both (98 ∷ [])
      tower second

abbrev b : Text
b = 98 ∷ []

cons-nil : b ≢ []
cons-nil e = cc e

other_name : villa.name ≢ b
other_name e = ground (arith, e)

resolve_property_query_from_items_exact_example :
    (resolve_property_query_from_items same never true both b ≡ found tower)
    × (list_disambiguation_candidate_properties same never both b ≡ tower ∷ [])
unfolding strip strip_left strip_right is_space text_beq
resolve_property_query_from_items_exact_example =
    resolve_property_query_from_items_exact same never true (villa ∷ []) tower [] b cons-nil
      cons-nil refl (other_name, tt) tt
