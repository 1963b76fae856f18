-- ===== src/Names.antt =====
-- Which property a spoken name means: backend/ai/property_name_resolution.py. A score is a number
-- of ten-thousandths; a missing text is the empty one.
use web3_real_estate.Base.{
  ℕ, ◌+◌, ◌-◌, Bool, true, false, ◌&&◌, ◌||◌, not, leb, ltb, eqb, if◌then◌else◌, Option, none, some,
  List, [], ◌∷◌, ◌++◌, ◌==◌,
}
use web3_real_estate.Base.Text.{Text, text_eq, strip}
use web3_real_estate.Base.Lists.{take}
pub mod Found
pub mod Exact

-- The columns of a property row that are read.
pub record Listing : Type 0 where
  pub id : ℕ
  pub name : Text
  pub location : Text
  pub token_symbol : Text

-- `STRONG_MATCH_THRESHOLD`, `SUBSTRING_MATCH_SCORE`, `AMBIGUITY_SCORE_GAP`, `WEAK_MATCH_THRESHOLD`
abbrev pub strong_match_threshold : ℕ
strong_match_threshold = 7200

abbrev pub substring_match_score : ℕ
substring_match_score = 9400

abbrev pub ambiguity_score_gap : ℕ
ambiguity_score_gap = 800

abbrev pub weak_match_threshold : ℕ
weak_match_threshold = 5800

-- `text.startswith(part)` and `part in text`
unfoldable pub starts_with : Text → Text → Bool
starts_with [] text = true
starts_with (c ∷ cs) [] = false
starts_with (c ∷ cs) (d ∷ ds) = eqb c d && starts_with cs ds

unfoldable pub contains : Text → Text → Bool
contains part [] = starts_with part []
contains part (c ∷ cs) = starts_with part (c ∷ cs) || contains part cs

abbrev pub greater : ℕ → ℕ → ℕ
greater a b = if leb a b then b else a

abbrev pub Ranked : Type 0
Ranked = List (ℕ × Listing)

-- The answers, by their messages: `several` is "Several ... match", `confirm` is "Please confirm
-- which property you mean".
pub data Answer : Type 0 where
  found : Listing → Answer
  no_query unavailable not_found_id : Answer
  not_found confirm several : Ranked → Answer

-- "Several"
abbrev pub several_word : Text
several_word = 83 ∷ 101 ∷ 118 ∷ 101 ∷ 114 ∷ 97 ∷ 108 ∷ []

-- Equal or larger keys come first; the sort is stable.
unfoldable pub ranks_before : ℕ × Listing → ℕ × Listing → Bool
ranks_before (s, a) (t, b) = ltb t s || eqb s t && leb b.id a.id

unfoldable pub insert_ranked : ℕ × Listing → Ranked → Ranked
insert_ranked x [] = x ∷ []
insert_ranked x (y ∷ ys) = if ranks_before x y then x ∷ y ∷ ys else y ∷ insert_ranked x ys

unfoldable pub rank_properties_by_score : (Listing → ℕ) → List Listing → Ranked
rank_properties_by_score scorer [] = []
rank_properties_by_score scorer (x ∷ xs) =
    insert_ranked (scorer x, x) (rank_properties_by_score scorer xs)

unfoldable pub strong_of : Ranked → Ranked
strong_of [] = []
strong_of ((s, x) ∷ rest) =
    let others = strong_of rest in if leb strong_match_threshold s then (s, x) ∷ others else others

-- `(strong[0][0] - strong[1][0]) < AMBIGUITY_SCORE_GAP` for at least two
unfoldable pub is_ambiguous : Ranked → Bool
is_ambiguous [] = false
is_ambiguous ((s, x) ∷ []) = false
is_ambiguous ((s, x) ∷ (t, y) ∷ rest) = ltb (s - t) ambiguity_score_gap

unfoldable pub listings : Ranked → List Listing
listings [] = []
listings ((s, x) ∷ rest) = x ∷ listings rest

-- The element of a list of one
unfoldable pub only : List Listing → Option Listing
only [] = none
only (x ∷ []) = some x
only (x ∷ y ∷ rest) = none

unfoldable pub top_score : Ranked → ℕ
top_score [] = 0
top_score ((s, x) ∷ rest) = s

-- The names that a message lists; a property without a name is shown by its number.
unfoldable pub names_say : Text → Ranked → Bool
names_say word [] = false
names_say word ((s, x) ∷ rest) = contains word x.name || names_say word rest

-- `"Several" in identity_result[1]`: the message repeats the query or names of properties.
unfoldable pub says_several : Text → Answer → Bool
says_several q (found x) = false
says_several q no_query = false
says_several q unavailable = false
says_several q not_found_id = false
says_several q (not_found ranked) =
    contains several_word q || names_say several_word (take 3 ranked)
says_several q (confirm ranked) = names_say several_word (take 3 ranked)
says_several q (several ranked) = true

-- `normalize` is `normalize_match_text`, which rests on `unicodedata` and `re`; `ratio` is
-- `SequenceMatcher.ratio`.
module _ (normalize : Text → Text) (ratio : Text → Text → ℕ) where
  unfoldable pub score_normalized_query_against_text : Text → Text → ℕ
  score_normalized_query_against_text query candidate =
      let text = normalize candidate in
      if query == [] || text == []
      then 0
      else if query == text
      then 10000
      else if contains query text || contains text query
      then substring_match_score
      else ratio query text

  unfoldable pub property_identity_match_score : Text → Listing → ℕ
  property_identity_match_score query x =
      let q = normalize query in
      if q == []
      then 0
      else greater (score_normalized_query_against_text q x.name)
          (score_normalized_query_against_text q x.token_symbol)

  -- An empty candidate scores nothing, so leaving it out changes no maximum.
  unfoldable pub property_broad_match_score : Text → Listing → ℕ
  property_broad_match_score query x =
      let q = normalize query in
      if q == []
      then 0
      else greater
          (greater (score_normalized_query_against_text q x.name)
            (score_normalized_query_against_text q x.location))
          (greater (score_normalized_query_against_text q x.token_symbol)
            (score_normalized_query_against_text q (x.name ++ 32 ∷ x.location)))

  unfoldable pub named : Text → List Listing → List Listing
  named query [] = []
  named query (x ∷ xs) =
      let rest = named query xs in if normalize x.name == query then x ∷ rest else rest

  unfoldable pub find_unique_exact_property_name_match : List Listing → Text → Option Listing
  find_unique_exact_property_name_match items query =
      if normalize query == [] then none else only (named (normalize query) items)

  unfoldable pub pick_exact_name_from_ranked_ties : Ranked → Text → Option Listing
  pick_exact_name_from_ranked_ties strong query =
      find_unique_exact_property_name_match (listings strong) query

  -- No strong match: the best score decides which message is given.
  unfoldable pub weak_answer : Ranked → Answer
  weak_answer ranked =
      if ltb (top_score ranked) weak_match_threshold then not_found ranked else confirm ranked

  unfoldable pub pick_strong : Ranked → Ranked → Text → Answer
  pick_strong ranked [] query = weak_answer ranked
  pick_strong ranked ((s, x) ∷ rest) query =
      if is_ambiguous ((s, x) ∷ rest)
      then (elim (pick_exact_name_from_ranked_ties ((s, x) ∷ rest) query) [
        | some y ↦ found y
        | none ↦ several ((s, x) ∷ rest)
      ])
      else found x

  unfoldable pub pick_unique_property_from_ranked : Ranked → Text → Answer
  pick_unique_property_from_ranked [] query = unavailable
  pick_unique_property_from_ranked (r ∷ rs) query = pick_strong (r ∷ rs) (strong_of (r ∷ rs)) query

  -- One half of `list_disambiguation_candidate_properties`
  unfoldable pub tied : Ranked → Text → Option (List Listing)
  tied ranked query =
      let strong = strong_of ranked in
      if is_ambiguous strong
      then (elim (pick_exact_name_from_ranked_ties strong query) [
        | some y ↦ some (y ∷ [])
        | none ↦ some (listings (take 3 strong))
      ])
      else none

  unfoldable pub list_disambiguation_candidate_properties : List Listing → Text → List Listing
  list_disambiguation_candidate_properties items query =
      let q = strip query in
      if q == [] then [] else elim (find_unique_exact_property_name_match items q) [
        | some x ↦ x ∷ []
        | none ↦
            let ranked = rank_properties_by_score (property_identity_match_score q) items in
            elim (tied ranked q) [
              | some xs ↦ xs
              | none ↦
                  if ltb (top_score ranked) strong_match_threshold
                  then (elim (tied (rank_properties_by_score (property_broad_match_score q) items)
                      q) [ some xs ↦ xs | none ↦ [] ])
                  else []
            ]
      ]

  -- The ranking by name and symbol, and by the location too if that finds nothing strong.
  unfoldable pub fallback : Bool → List Listing → Text → Answer → Answer
  fallback allow items q (found x) = found x
  fallback allow items q answer =
      if says_several q answer
      then answer
      else if allow
          && ltb (top_score (rank_properties_by_score (property_identity_match_score q) items))
              strong_match_threshold
      then pick_unique_property_from_ranked
          (rank_properties_by_score (property_broad_match_score q) items) q
      else answer

  unfoldable pub resolve_property_query_from_items : Bool → List Listing → Text → Answer
  resolve_property_query_from_items allow [] query =
      if strip query == [] then no_query else unavailable
  resolve_property_query_from_items allow (x ∷ xs) query =
      let q = strip query in
      if q == [] then no_query else elim (find_unique_exact_property_name_match (x ∷ xs) q) [
        | some y ↦ found y
        | none ↦ fallback allow (x ∷ xs) q (
            pick_unique_property_from_ranked
              (rank_properties_by_score (property_identity_match_score q) (x ∷ xs)) q)
      ]

  unfoldable pub allowed : (Listing → Bool) → List Listing → List Listing
  allowed p [] = []
  allowed p (x ∷ xs) = let rest = allowed p xs in if p x then x ∷ rest else rest

  unfoldable pub by_id : ℕ → List Listing → Answer
  by_id i [] = not_found_id
  by_id i (x ∷ xs) = if eqb x.id i then found x else by_id i xs

  unfoldable pub resolve_by_id_or_name : Option ℕ → List Listing → Text → Answer
  resolve_by_id_or_name target [] q = unavailable
  resolve_by_id_or_name (some i) (x ∷ xs) q = by_id i (x ∷ xs)
  resolve_by_id_or_name none (x ∷ xs) q = resolve_property_query_from_items true (x ∷ xs) q

  -- `resolve_investable_property_from_items`, where `id_of` reads a number such as "#12", and
  -- `resolve_rentable_property_from_items`, where it is `property_id_from_query`.
  unfoldable pub resolve_allowed_property_from_items :
      (Text → Option ℕ) → (Listing → Bool) → List Listing → Text → Answer
  resolve_allowed_property_from_items id_of p items query =
      let q = strip query in
      if q == [] then no_query else resolve_by_id_or_name (id_of q) (allowed p items) q
