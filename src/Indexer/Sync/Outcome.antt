-- ===== src/Indexer/Sync/Outcome.antt =====
-- How far a pass of `sync_once` gets.
use web3_real_estate.Base.{
  ℕ, zero, suc, ◌+◌, ◌≤◌, ◌<◌, ◌≡◌, ◌≢◌, ◌⊎◌, inl, inr, refl, [], Bool-cases, arith, leb,
}
use web3_real_estate.Indexer.Rows.{Store}
use web3_real_estate.Indexer.Chain.{Chain}
use web3_real_estate.Indexer.Logs.{Provider}
use web3_real_estate.Indexer.Sync.{
  get_sync_state, set_sync_state, chunk_end, reconcile_chunk, chunk_loop, seed_sync_state,
  first_block, sync_once, replay_depth,
}
use web3_real_estate.Indexer.Sync.Steps.{failed-cases, reconcile_chunk_sync_state, chunk_end_bounds}
use web3_real_estate.Indexer.Sync.Passes.{Passed, chunk_loop-Passed}

module _ (c : Chain) (provider : Provider) (latest : ℕ) where
  chunk_end_ahead :
      (current last : ℕ)
      → last ≤ latest
      → last ≤ current + replay_depth
      → last ≤ chunk_end c provider latest current
  unfolding chunk_end
  chunk_end_ahead current last h k = omega arith

  get-set_sync_state : (n : ℕ) (s : Store) → get_sync_state (set_sync_state n s) ≡ n
  unfolding get_sync_state set_sync_state
  get-set_sync_state n s = refl

  -- The pass ended in a chunk of which a transaction failed, with the sync state just before it.
  pub record Stopped (t : Store) : Type 0 where
    pub first : ℕ
    pub processed : ℕ
    pub before : Store
    pub failure : (reconcile_chunk c provider latest first processed before).failed ≢ []
    pub result : t ≡ (reconcile_chunk c provider latest first processed before).store
    pub sync_state_before : get_sync_state t ≡ get_sync_state before
    pub no_gap : first ≤ get_sync_state t + 1
    pub not_past : first ≤ latest

  abbrev pub Outcome : Store → Type 0
  Outcome t = (get_sync_state t ≡ latest) ⊎ Stopped t

  chunk_loop-Outcome :
      (fuel current processed : ℕ) (s : Store)
      → latest < fuel + current
      → current ≤ get_sync_state s + 1
      → get_sync_state s ≤ latest
      → get_sync_state s ≤ current + replay_depth
      → let t = (chunk_loop c provider latest fuel current processed s).1 in
        (get_sync_state s ≤ get_sync_state t) × Outcome t
  unfolding chunk_loop
  chunk_loop-Outcome zero current processed s h k l m = (omega arith, inl (omega arith))
  chunk_loop-Outcome (suc fuel) current processed s h k l m =
      elim (Bool-cases (leb current latest)) [
        | inl e ↦
            elim (failed-cases (reconcile_chunk c provider latest current processed s).failed) [
              | inl clean ↦
                  rw (e, clean)
                    (let end = chunk_end c provider latest current in
                      let p = reconcile_chunk c provider latest current processed s in
                      let within : current ≤ latest = ground arith in
                      let (low, high) = chunk_end_bounds c provider latest current within in
                      let ahead = chunk_end_ahead current (get_sync_state s) l m in
                      let set = get-set_sync_state end p.store in
                      let (grows, outcome) =
                        chunk_loop-Outcome fuel (end + 1) p.processed (set_sync_state end p.store)
                          (omega arith) (omega arith) (omega arith) (omega arith) in
                      (omega arith, outcome))
              | inr (x, xs, broken) ↦
                  rw (e, broken)
                    (let same = reconcile_chunk_sync_state c provider latest current processed s in
                      (
                        omega arith,
                        inr (record {
                          first = current;
                          processed = processed;
                          before = s;
                          failure = λ empty. cc (broken, empty);
                          result = refl;
                          sync_state_before = same;
                          no_gap = omega arith;
                          not_past = ground arith;
                        }),
                      ))
            ]
        | inr e ↦ rw e (omega arith, inl (ground arith))
      ]

  first_block_bounds :
      (start : ℕ) (s : Store)
      → start ≤ get_sync_state s
      → (first_block c provider latest start s ≤ get_sync_state s + 1)
        × (get_sync_state s ≤ first_block c provider latest start s + replay_depth)
  unfolding first_block
  first_block_bounds start s h = omega arith

  seed_cases :
      (start : ℕ) (s : Store)
      → (get_sync_state s ≡ 0) ⊎ (start ≤ get_sync_state s)
      → let s' = seed_sync_state c provider latest start s in
        (get_sync_state s ≤ get_sync_state s') × (start ≤ get_sync_state s')
  unfolding seed_sync_state
  seed_cases start s h = ground (arith, get-set_sync_state start s)

  -- A pass of the indexer over a chain with blocks up to `latest`, for a sync state that is fresh or
  -- at least the configured start block. The sync state does not move back, and either it is not
  -- below `latest` in the end, or the pass stopped at a chunk in which a transaction failed, whose
  -- first block comes at most one after the sync state. Unless there was nothing to do, the pass has
  -- worked on chunks without a gap from a block at most one after the seeded sync state, discovering
  -- and reconciling from the first block of each to the last, up to the latest block or that failure.
  pub sync_once_outcome :
      (start : ℕ) (s : Store)
      → (get_sync_state s ≡ 0) ⊎ (start ≤ get_sync_state s)
      → let t = (sync_once c provider latest start s).1 in
        let seeded = seed_sync_state c provider latest start s in
        (get_sync_state s ≤ get_sync_state t)
        × ((latest ≤ get_sync_state t) ⊎ Stopped t)
        × (((latest ≤ get_sync_state seeded) × (t ≡ seeded))
            ⊎ ((first : ℕ) × (first ≤ get_sync_state seeded + 1)
                × Passed c provider latest first seeded t))
  unfolding sync_once
  sync_once_outcome start s h = elim (Bool-cases (leb latest (get_sync_state s'))) [
    | inl e ↦ rw e (seeded.0, inl (ground arith), inl (ground arith, refl))
    | inr e ↦ rw e (
        let below : get_sync_state s' < latest = ground arith in
        let first = first_block c provider latest start s' in
        let (grows, outcome) =
          chunk_loop-Outcome (suc latest) first 0 s' (omega arith) (first_bounds.0) (omega arith)
            (first_bounds.1) in
        (
          omega (arith, seeded.0, grows),
          reached outcome,
          inr (
            first,
            first_bounds.0,
            chunk_loop-Passed c provider latest (suc latest) first 0 s' (omega arith),
          ),
        ))
  ]
    where
      s' : Store
      s' = seed_sync_state c provider latest start s

      seeded : (get_sync_state s ≤ get_sync_state s') × (start ≤ get_sync_state s')
      seeded = seed_cases start s h

      first_bounds :
          (first_block c provider latest start s' ≤ get_sync_state s' + 1)
          × (get_sync_state s' ≤ first_block c provider latest start s' + replay_depth)
      first_bounds = first_block_bounds start s' seeded.1

      reached : {t : Store} → Outcome t → (latest ≤ get_sync_state t) ⊎ Stopped t
      reached (inl e) = inl (omega arith)
      reached (inr stopped) = inr stopped
