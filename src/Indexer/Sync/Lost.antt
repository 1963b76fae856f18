-- ===== src/Indexer/Sync/Lost.antt =====
-- A pass of `sync_once` while the provider refuses every query.
use web3_real_estate.Base.{
  ℕ, zero, suc, ◌+◌, ◌≤◌, ◌≡◌, ◌⊎◌, inl, inr, refl, ap, ◌∙◌, Option, none, some, List, [], ◌∷◌,
  Bool-cases, Option-cases, false, true, arith, leb, ltb, eqb, truthy, ◌&&◌, err,
}
use web3_real_estate.Indexer.Rows.{Store, Address, EventName, PropertyRow}
use web3_real_estate.Indexer.Chain.{Chain}
use web3_real_estate.Indexer.Logs.{
  Query, Provider, LogError, gave_up, after_error, scan, fetch, fetch_event_logs, log_scan_retries,
  add_hashes, contract_hashes, token_hashes, discover_transaction_hashes,
}
use web3_real_estate.Indexer.Sync.{
  Progress, reconcile_all, get_sync_state, set_sync_state, chunk_end, reconcile_chunk, chunk_loop,
  seed_sync_state, first_block, sync_once,
}
use web3_real_estate.Indexer.Sync.Outcome.{sync_once_outcome}

-- Every query is answered by an error that does not ask for a smaller window.
abbrev pub Refuses : Query → Type 0
Refuses q =
    (attempt from to : ℕ) → (e : LogError) × (q attempt from to ≡ err e) × (e.splittable ≡ false)

scan-gave_up :
    (q : Query) (left attempt from to : ℕ) → Refuses q → scan q left attempt from to ≡ gave_up
unfolding scan after_error
scan-gave_up q zero attempt from to h = let (e, f, g) = h attempt from to in ground (arith, f, g)
scan-gave_up q (suc left) attempt from to h =
    let (e, f, g) = h attempt from to in
    ground (arith, f, g, scan-gave_up q left (attempt + 1) from to h)

fetch-none : (q : Query) (from to : ℕ) → Refuses q → fetch_event_logs q from to ≡ []
unfolding fetch_event_logs fetch
fetch-none q from to h = elim (Bool-cases (ltb to from)) [
  | inl e ↦ rw e refl
  | inr e ↦ rw (e, scan-gave_up q log_scan_retries 0 from to h) refl
]

module _ (c : Chain) (provider : Provider) (latest : ℕ)
    (refuses : (a : Address) (name : EventName) → Refuses (provider a name)) where
  contract-none :
      (from to : ℕ) (a : Address) (names : List EventName)
      → contract_hashes provider from to a names [] ≡ []
  unfolding contract_hashes add_hashes
  contract-none from to a [] = refl
  contract-none from to a (name ∷ names) =
      rw (fetch-none (provider a name) from to (refuses a name), contract-none from to a names) refl

  token-none : (from to : ℕ) (rows : List PropertyRow) → token_hashes provider from to rows [] ≡ []
  unfolding token_hashes
  token-none from to [] = refl
  token-none from to (row ∷ rows) = elim (Option-cases row.token_address) [
    | inl e ↦ rw (e, token-none from to rows) refl
    | inr (a, e) ↦ rw (e, token-none from to rows) (contract-none from to a _)
  ]

  discover-none :
      (from to : ℕ) (o : Option Address) (rows : List PropertyRow)
      → discover_transaction_hashes provider from to o rows ≡ []
  unfolding discover_transaction_hashes
  discover-none from to none rows = token-none from to rows
  discover-none from to (some a) rows = rw (token-none from to rows) (contract-none from to a _)

  chunk-none :
      (current processed : ℕ) (s : Store)
      → reconcile_chunk c provider latest current processed s
        ≡ record { processed = processed; failed = []; store = s }
  unfolding reconcile_chunk reconcile_all
  chunk-none current processed s =
      rw
        (discover-none current (chunk_end c provider latest current) c.rent_distribution_address
          s.properties)
        refl

  step-none :
      (fuel current processed : ℕ) (s : Store)
      → leb current latest ≡ true
      → chunk_loop c provider latest (suc fuel) current processed s
        ≡ chunk_loop c provider latest fuel
            (chunk_end c provider latest current + 1)
            processed
            (set_sync_state (chunk_end c provider latest current) s)
  unfolding chunk_loop
  step-none fuel current processed s e = rw e (
      ap
        (λ (p : Progress). elim p.failed as (λ _. ℕ × Store) [
          | [] ↦
              chunk_loop c provider latest fuel (chunk_end c provider latest current + 1)
                p.processed (set_sync_state (chunk_end c provider latest current) p.store)
          | _ ∷ _ ↦ (p.processed, p.store)
        ])
        (chunk-none current processed s))

  loop-none :
      (fuel current processed : ℕ) (s : Store)
      → (o : Option ℕ) × (chunk_loop c provider latest fuel current processed s
          ≡ (processed, record s { sync_state = o }))
  unfolding set_sync_state
  loop-none zero current processed s = (s.sync_state, unfold chunk_loop in refl)
  loop-none (suc fuel) current processed s = elim (Bool-cases (leb current latest)) [
    | inr e ↦ (s.sync_state, unfold chunk_loop in rw e refl)
    | inl e ↦
        let (o, h) =
          loop-none fuel (chunk_end c provider latest current + 1) processed
            (set_sync_state (chunk_end c provider latest current) s) in
        (o, step-none fuel current processed s e ∙ h)
  ]

  seed-none :
      (start : ℕ) (s : Store)
      → (o : Option ℕ) × (seed_sync_state c provider latest start s ≡ record s { sync_state = o })
  unfolding seed_sync_state set_sync_state
  seed-none start s = elim (Bool-cases (eqb (get_sync_state s) 0 && truthy start)) [
    | inl e ↦ (some start, rw e refl)
    | inr e ↦ (s.sync_state, rw e refl)
  ]

  pass-none :
      (start : ℕ) (s : Store)
      → (o : Option ℕ) × (sync_once c provider latest start s ≡ (0, record s { sync_state = o }))
  unfolding sync_once
  pass-none start s =
      let s' = seed_sync_state c provider latest start s in
      let (n, seeded) = seed-none start s in
      elim (Bool-cases (leb latest (get_sync_state s'))) [
        | inl e ↦ (n, rw e (ap (λ (t : Store). (0, t)) seeded))
        | inr e ↦
            let (o, h) = loop-none (suc latest) (first_block c provider latest start s') 0 s' in
            (o, rw e (h ∙ ap (λ (t : Store). (0, record t { sync_state = o })) seeded))
      ]

  -- While the provider refuses every query for good, a pass reports no transaction and changes no
  -- table, and yet moves the sync state to the latest block, for a sync state that is fresh or at
  -- least the configured start block: the events of the blocks passed over are not looked for again,
  -- but for the few that each pass repeats.
  pub sync_once_lost :
      (start : ℕ) (s : Store)
      → (get_sync_state s ≡ 0) ⊎ (start ≤ get_sync_state s)
      → (o : Option ℕ) × (sync_once c provider latest start s ≡ (0, record s { sync_state = o }))
        × (latest ≤ get_sync_state (record s { sync_state = o }))
  sync_once_lost start s h =
      let (grows, outcome, _) = sync_once_outcome c provider latest start s h in
      let (o, same) = pass-none start s in
      (
        o,
        same,
        rw (← ap (λ (r : ℕ × Store). r.1) same) (elim outcome [
          | inl reached ↦ reached
          | inr stopped ↦ absurd (
              stopped.failure (
                ap (λ (p : Progress). p.failed)
                  (chunk-none stopped.first stopped.processed stopped.before)))
        ]),
      )
