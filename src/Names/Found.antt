-- ===== src/Names/Found.antt =====
-- The property that backend/ai/property_name_resolution.py answers is one of those it was given.
use web3_real_estate.Base.{
  ℕ, ◌≡◌, refl, sym, ◌∙◌, if◌then◌else◌, Bool, true, false, leb, eqb, Option, none, some, List, [],
  ◌∷◌, ◌==◌, arith, ◌⊎◌, inl, inr, Bool-cases, Option-cases,
}
use web3_real_estate.Base.Text.{Text, text_eq, strip}
use web3_real_estate.Names.{
  Listing, Ranked, Answer, found, insert_ranked, ranks_before, rank_properties_by_score, strong_of,
  listings, only, named, find_unique_exact_property_name_match, pick_exact_name_from_ranked_ties,
  weak_answer, pick_strong, pick_unique_property_from_ranked, property_identity_match_score,
  property_broad_match_score, fallback, resolve_property_query_from_items, allowed, by_id,
  resolve_by_id_or_name, resolve_allowed_property_from_items, is_ambiguous, strong_match_threshold,
}

pub data Mem (x : Listing) : List Listing → Type 0 where
  here : (xs : List Listing) → Mem x (x ∷ xs)
  there : (y : Listing) (xs : List Listing) → Mem x xs → Mem x (y ∷ xs)

-- Every element of the first list is one of the second.
abbrev pub Within : List Listing → List Listing → Type 0
Within xs ys = (x : Listing) → Mem x xs → Mem x ys

Within-cons : (y : Listing) (xs ys : List Listing) → Within xs ys → Within (y ∷ xs) (y ∷ ys)
Within-cons y xs ys h _ (Mem.here _) = Mem.here ys
Within-cons y xs ys h x (Mem.there _ _ m) = Mem.there y ys (h x m)

Within-skip : (y : Listing) (xs ys : List Listing) → Within xs ys → Within xs (y ∷ ys)
Within-skip y xs ys h x m = Mem.there y ys (h x m)

Within-swap : (x y : Listing) (xs : List Listing) → Within (x ∷ y ∷ xs) (y ∷ x ∷ xs)
Within-swap x y xs _ (Mem.here _) = Mem.there y (x ∷ xs) (Mem.here xs)
Within-swap x y xs _ (Mem.there _ _ (Mem.here _)) = Mem.here (x ∷ xs)
Within-swap x y xs z (Mem.there _ _ (Mem.there _ _ m)) = Mem.there y (x ∷ xs) (Mem.there x xs m)

inserted :
    (s : ℕ) (x : Listing) (r : Ranked) → Within (listings (insert_ranked (s, x) r)) (x ∷ listings r)
unfolding insert_ranked listings
inserted s x [] z m = m
inserted s x ((t, y) ∷ r) z m = elim (Bool-cases (ranks_before (s, x) (t, y))) [
  | inl e ↦ (rw e at m)
  | inr e ↦ Within-swap y x (listings r) z (Within-cons y _ _ (inserted s x r) z (rw e at m))
]

ranked-Within :
    (scorer : Listing → ℕ) (items : List Listing)
    → Within (listings (rank_properties_by_score scorer items)) items
unfolding rank_properties_by_score listings
ranked-Within scorer [] z m = m
ranked-Within scorer (x ∷ xs) z m =
    Within-cons x _ _ (ranked-Within scorer xs) z
      (inserted (scorer x) x (rank_properties_by_score scorer xs) z m)

strong-Within : (r : Ranked) → Within (listings (strong_of r)) (listings r)
unfolding strong_of listings
strong-Within [] z m = m
strong-Within ((s, x) ∷ r) z m = elim (Bool-cases (leb strong_match_threshold s)) [
  | inl e ↦ Within-cons x _ _ (strong-Within r) z (rw e at m)
  | inr e ↦ Within-skip x _ _ (strong-Within r) z (rw e at m)
]

only_mem : (xs : List Listing) (x : Listing) → only xs ≡ some x → Mem x xs
unfolding only
only_mem [] x e = absurd (ground (arith, e))
only_mem (y ∷ []) x e = let f : y ≡ x = ground (arith, e) in rw (← f) (Mem.here [])
only_mem (y ∷ z ∷ rest) x e = absurd (ground (arith, e))

found-eq : (x y : Listing) → found x ≡ found y → x ≡ y
found-eq x y e = cc

module _ (normalize : Text → Text) (ratio : Text → Text → ℕ) where
  named-Within : (q : Text) (xs : List Listing) → Within (named normalize ratio q xs) xs
  unfolding named
  named-Within q [] z m = m
  named-Within q (x ∷ xs) z m = elim (Bool-cases (normalize x.name == q)) [
    | inl e ↦ Within-cons x _ _ (named-Within q xs) z (rw e at m)
    | inr e ↦ Within-skip x _ _ (named-Within q xs) z (rw e at m)
  ]

  exact_mem :
      (items : List Listing) (q : Text) (x : Listing)
      → find_unique_exact_property_name_match normalize ratio items q ≡ some x
      → Mem x items
  exact_mem items q x e = elim (Bool-cases (normalize q == [])) [
    | inl f ↦ absurd (unfold find_unique_exact_property_name_match in ground (arith, e, f))
    | inr f ↦
        named-Within (normalize q) items x
          (only_mem _ x (unfold find_unique_exact_property_name_match in ground (arith, e, f)))
  ]

  strong_mem :
      (ranked strong : Ranked) (q : Text) (x : Listing)
      → pick_strong normalize ratio ranked strong q ≡ found x
      → Mem x (listings strong)
  strong_mem ranked [] q x e = absurd (unfold pick_strong weak_answer in ground (arith, e))
  strong_mem ranked ((s, y) ∷ rest) q x e = elim (Bool-cases (is_ambiguous ((s, y) ∷ rest))) [
    | inr f ↦
        let g : y ≡ x = unfold pick_strong in ground (arith, e, f) in
        unfold listings in rw (← g) (Mem.here (listings rest))
    | inl f ↦
        elim (Option-cases (pick_exact_name_from_ranked_ties normalize ratio ((s, y) ∷ rest) q)) [
          | inl g ↦ absurd (unfold pick_strong in ground (arith, e, f, g))
          | inr (z, g) ↦
              let h : z ≡ x = unfold pick_strong in ground (arith, e, f, g) in
              rw (← h) (
                exact_mem (listings ((s, y) ∷ rest)) q z
                  (unfold pick_exact_name_from_ranked_ties in g))
        ]
  ]

  pick_mem :
      (scorer : Listing → ℕ) (items : List Listing) (q : Text) (x : Listing)
      → pick_unique_property_from_ranked normalize ratio (rank_properties_by_score scorer items) q
        ≡ found x
      → Mem x items
  pick_mem scorer items q x e =
      ranked-Within scorer items x (picked (rank_properties_by_score scorer items) e)
    where
      picked :
          (r : Ranked)
          → pick_unique_property_from_ranked normalize ratio r q ≡ found x
          → Mem x (listings r)
      picked [] h = absurd (unfold pick_unique_property_from_ranked in ground (arith, h))
      picked (y ∷ r) h = strong-Within (y ∷ r) x (
          strong_mem (y ∷ r) (strong_of (y ∷ r)) q x (unfold pick_unique_property_from_ranked in h))

  either :
      (b d : Bool) (x y : Answer)
      → ((if b then x else if d then y else x) ≡ x) ⊎ ((if b then x else if d then y else x) ≡ y)
  either true d x y = inl refl
  either false true x y = inr refl
  either false false x y = inl refl

  fallback_cases :
      (allow : Bool) (items : List Listing) (q : Text) (answer : Answer)
      → (fallback normalize ratio allow items q answer ≡ answer)
        ⊎ (fallback normalize ratio allow items q answer
            ≡ pick_unique_property_from_ranked normalize ratio
                (rank_properties_by_score (property_broad_match_score normalize ratio q) items)
                q)
  unfolding fallback
  fallback_cases allow items q (Answer.found x) = inl refl
  fallback_cases allow items q Answer.no_query = either _ _ _ _
  fallback_cases allow items q Answer.unavailable = either _ _ _ _
  fallback_cases allow items q Answer.not_found_id = either _ _ _ _
  fallback_cases allow items q (Answer.not_found r) = either _ _ _ _
  fallback_cases allow items q (Answer.confirm r) = either _ _ _ _
  fallback_cases allow items q (Answer.several r) = either _ _ _ _

  resolve_mem :
      (allow : Bool) (items : List Listing) (query : Text) (x : Listing)
      → resolve_property_query_from_items normalize ratio allow items query ≡ found x
      → Mem x items
  resolve_mem allow [] query x e =
      absurd (unfold resolve_property_query_from_items in ground (arith, e))
  resolve_mem allow (i ∷ is) query x e = elim (Bool-cases (strip query == [])) [
    | inl f ↦ absurd (unfold resolve_property_query_from_items in ground (arith, e, f))
    | inr f ↦
        elim (Option-cases
          (find_unique_exact_property_name_match normalize ratio (i ∷ is) (strip query))) [
            | inr (y, g) ↦
                let h : y ≡ x =
                  unfold resolve_property_query_from_items in ground (arith, e, f, g) in
                rw (← h) (exact_mem (i ∷ is) (strip query) y g)
            | inl g ↦
                searched (strip query)
                  (unfold resolve_property_query_from_items in ground (arith, e, f, g))
          ]
  ]
    where
      searched :
          (q : Text)
          → fallback normalize ratio allow (i ∷ is) q (
              pick_unique_property_from_ranked normalize ratio
                (rank_properties_by_score
                  (property_identity_match_score normalize ratio q)
                  (i ∷ is))
                q)
            ≡ found x
          → Mem x (i ∷ is)
      searched q h = elim (fallback_cases allow (i ∷ is) q _) [
        | inl k ↦
            pick_mem (property_identity_match_score normalize ratio q) (i ∷ is) q x (sym k ∙ h)
        | inr k ↦ pick_mem (property_broad_match_score normalize ratio q) (i ∷ is) q x (sym k ∙ h)
      ]

  allowed-Within :
      (p : Listing → Bool) (xs : List Listing) → Within (allowed normalize ratio p xs) xs
  unfolding allowed
  allowed-Within p [] z m = m
  allowed-Within p (x ∷ xs) z m = elim (Bool-cases (p x)) [
    | inl e ↦ Within-cons x _ _ (allowed-Within p xs) z (rw e at m)
    | inr e ↦ Within-skip x _ _ (allowed-Within p xs) z (rw e at m)
  ]

  allowed_passes :
      (p : Listing → Bool) (xs : List Listing) (x : Listing)
      → Mem x (allowed normalize ratio p xs)
      → p x ≡ true
  unfolding allowed
  allowed_passes p [] x m = elim m [ ]
  allowed_passes p (y ∷ ys) x m = elim (Bool-cases (p y)) [
    | inl e ↦ head_or y _ e (allowed_passes p ys x) (rw e at m)
    | inr e ↦ allowed_passes p ys x (rw e at m)
  ]
    where
      head_or :
          (z : Listing) (zs : List Listing)
          → p z ≡ true
          → (Mem x zs → p x ≡ true)
          → Mem x (z ∷ zs)
          → p x ≡ true
      head_or _ zs e k (Mem.here _) = e
      head_or z zs e k (Mem.there _ _ l) = k l

  by_id_mem :
      (i : ℕ) (xs : List Listing) (x : Listing) → by_id normalize ratio i xs ≡ found x → Mem x xs
  unfolding by_id
  by_id_mem i [] x e = absurd (ground (arith, e))
  by_id_mem i (y ∷ ys) x e = elim (Bool-cases (eqb y.id i)) [
    | inl f ↦ let g : y ≡ x = ground (arith, e, f) in rw (← g) (Mem.here ys)
    | inr f ↦ Mem.there y ys (by_id_mem i ys x (ground (arith, e, f)))
  ]

  -- A property that is answered, for a number or for a name, is one of the properties that were
  -- given, and one that may be invested in, or rented.
  pub resolve_allowed_property_from_items_sound :
      (id_of : Text → Option ℕ) (p : Listing → Bool) (items : List Listing) (query : Text)
      (x : Listing)
      → resolve_allowed_property_from_items normalize ratio id_of p items query ≡ found x
      → Mem x items × (p x ≡ true)
  resolve_allowed_property_from_items_sound id_of p items query x e =
      elim (Bool-cases (strip query == [])) [
        | inl f ↦ absurd (unfold resolve_allowed_property_from_items in ground (arith, e, f))
        | inr f ↦
            let m =
              member (id_of (strip query)) (allowed normalize ratio p items) (strip query)
                (unfold resolve_allowed_property_from_items in ground (arith, e, f)) in
            (allowed-Within p items x m, allowed_passes p items x m)
      ]
    where
      member :
          (target : Option ℕ) (xs : List Listing) (q : Text)
          → resolve_by_id_or_name normalize ratio target xs q ≡ found x
          → Mem x xs
      member target [] q h = absurd (unfold resolve_by_id_or_name in ground (arith, h))
      member (some i) (y ∷ ys) q h = by_id_mem i (y ∷ ys) x (unfold resolve_by_id_or_name in h)
      member none (y ∷ ys) q h = resolve_mem true (y ∷ ys) q x (unfold resolve_by_id_or_name in h)
