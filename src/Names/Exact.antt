-- ===== src/Names/Exact.antt =====
-- A query that is the name of one property only: backend/ai/property_name_resolution.py.
use web3_real_estate.Base.{
  ℕ, ◌≡◌, ◌≢◌, Bool, false, some, List, [], ◌∷◌, ◌++◌, ◌==◌, arith, Bool-cases, inl, inr, refl,
}
use web3_real_estate.Base.Text.{Text, text_eq, text_beq_iff, strip}
use web3_real_estate.Names.{
  Listing, found, only, named, find_unique_exact_property_name_match,
  list_disambiguation_candidate_properties, resolve_property_query_from_items,
}

module _ (normalize : Text → Text) (ratio : Text → Text → ℕ) where
  -- No property of the list has the name, up to normalisation.
  abbrev pub NoneCalled : Text → List Listing → Type 0
  NoneCalled name [] = Unit
  NoneCalled name (x ∷ xs) = (normalize x.name ≢ name) × NoneCalled name xs

  named-none :
      (name : Text) (xs : List Listing) → NoneCalled name xs → named normalize ratio name xs ≡ []
  unfolding named
  named-none name [] h = refl
  named-none name (x ∷ xs) h = elim (Bool-cases (normalize x.name == name)) [
    | inl e ↦ absurd (h.0 ((text_beq_iff (normalize x.name) name).0 e))
    | inr e ↦ rw e (named-none name xs h.1)
  ]

  named-one :
      (name : Text) (before : List Listing) (x : Listing) (after : List Listing)
      → normalize x.name ≡ name
      → NoneCalled name before
      → NoneCalled name after
      → named normalize ratio name (before ++ x ∷ after) ≡ x ∷ []
  unfolding named
  named-one name [] x after e h k =
      rw ((text_beq_iff (normalize x.name) name).1 e, named-none name after k) refl
  named-one name (y ∷ before) x after e h k = elim (Bool-cases (normalize y.name == name)) [
    | inl f ↦ absurd (h.0 ((text_beq_iff (normalize y.name) name).0 f))
    | inr f ↦ rw f (named-one name before x after e h.1 k)
  ]

  not_empty : (t : Text) → t ≢ [] → (t == []) ≡ false
  not_empty t h = elim (Bool-cases (t == [])) [
    | inl e ↦ absurd (h ((text_beq_iff t []).0 e))
    | inr e ↦ e
  ]

  by_name :
      (allow : Bool) (items : List Listing) (query : Text) (x y : Listing) (rest : List Listing)
      → items ≡ y ∷ rest
      → (strip query == []) ≡ false
      → find_unique_exact_property_name_match normalize ratio items (strip query) ≡ some x
      → resolve_property_query_from_items normalize ratio allow items query ≡ found x
  unfolding resolve_property_query_from_items
  by_name allow [] query x y rest e b f = ground (arith, e)
  by_name allow (z ∷ zs) query x y rest e b f = rw (b, f) refl

  items-cons :
      (before : List Listing) (x : Listing) (after : List Listing)
      → (y : Listing) × (rest : List Listing) × (before ++ x ∷ after ≡ y ∷ rest)
  items-cons [] x after = (x, after, refl)
  items-cons (y ∷ ys) x after = (y, ys ++ x ∷ after, refl)

  -- If the normalised name of exactly one of the properties is the normalised query, and that is not
  -- empty, then the query resolves to that property, wherever it stands and whatever the scores
  -- of the others are, and no other is offered to choose from.
  pub resolve_property_query_from_items_exact :
      (allow : Bool) (before : List Listing) (x : Listing) (after : List Listing) (query : Text)
      → normalize (strip query) ≢ []
      → strip query ≢ []
      → normalize x.name ≡ normalize (strip query)
      → NoneCalled (normalize (strip query)) before
      → NoneCalled (normalize (strip query)) after
      → (resolve_property_query_from_items normalize ratio allow (before ++ x ∷ after) query
          ≡ found x)
        × (list_disambiguation_candidate_properties normalize ratio (before ++ x ∷ after) query
            ≡ x ∷ [])
  resolve_property_query_from_items_exact allow before x after query a b e h k =
      let (y, rest, shape) = items-cons before x after in
      let filled = not_empty (strip query) b in
      let unique : find_unique_exact_property_name_match normalize ratio (before ++ x ∷ after)
            (strip query)
          ≡ some x =
        unfold find_unique_exact_property_name_match only in
        rw
          (
            not_empty (normalize (strip query)) a,
            named-one (normalize (strip query)) before x after e h k,
          )
          refl in
      (
        by_name allow (before ++ x ∷ after) query x y rest shape filled unique,
        unfold list_disambiguation_candidate_properties in rw (filled, unique) refl,
      )
