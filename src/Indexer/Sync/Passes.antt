-- ===== src/Indexer/Sync/Passes.antt =====
-- What one chunk of a pass does, and which blocks a pass of `sync_once` works on.
use web3_real_estate.Base.{
  ℕ, zero, suc, ◌+◌, ◌≤◌, ◌<◌, ◌≡◌, ◌≢◌, ◌⊎◌, ◌↔◌, inl, inr, refl, Bool, true, false, List, [], ◌∷◌,
  Result, ok, err, Bool-cases, arith, leb,
}
use web3_real_estate.Indexer.Rows.{Store, TxHash, Failure}
use web3_real_estate.Indexer.Chain.{Chain}
use web3_real_estate.Indexer.Logs.{Provider, discover_transaction_hashes}
use web3_real_estate.Indexer.Reconcile.{Summary, reconcile_transaction}
use web3_real_estate.Indexer.Sync.{
  Progress, settle_hash, reconcile_all, get_sync_state, set_sync_state, chunk_end, reconcile_chunk,
  chunk_loop,
}
use web3_real_estate.Indexer.Sync.Steps.{failed-cases, reconcile_chunk_sync_state, chunk_end_bounds}

-- Each transaction of a list is reconciled, one after the other, from a store to another. The flag
-- is true if all of them succeed.
pub data Reconciled (c : Chain) : List TxHash → Store → Bool → Store → Type 0 where
  finished : (s : Store) → Reconciled c [] s true s
  succeeds :
      (h : TxHash) (hs : List TxHash) (clean : Bool) (summary : Summary) (s t u : Store)
      → reconcile_transaction c h s ≡ (ok summary, t)
      → Reconciled c hs t clean u
      → Reconciled c (h ∷ hs) s clean u
  fails :
      (h : TxHash) (hs : List TxHash) (clean : Bool) (failure : Failure) (s t u : Store)
      → reconcile_transaction c h s ≡ (err failure, t)
      → Reconciled c hs t clean u
      → Reconciled c (h ∷ hs) s false u

-- The progress `q` is what reconciling the transactions makes of `p`.
abbrev Ran : Chain → List TxHash → Progress → Progress → Type 0
Ran c hs p q =
    (clean : Bool) × Reconciled c hs p.store clean q.store
    × ((q.failed ≡ []) ↔ ((p.failed ≡ []) × (clean ≡ true)))

settle_hash-Ran :
    (c : Chain) (h : TxHash) (hs : List TxHash) (p q : Progress) (r : Result Failure Summary)
    (t : Store)
    → reconcile_transaction c h p.store ≡ (r, t)
    → Ran c hs (settle_hash h p (r, t)) q
    → Ran c (h ∷ hs) p q
unfolding settle_hash
settle_hash-Ran c h hs p q (ok x) t e (clean, run, same) =
    (clean, Reconciled.succeeds h hs clean x p.store t q.store e run, same)
settle_hash-Ran c h hs p q (err x) t e (clean, run, same) = (
  false,
  Reconciled.fails h hs clean x p.store t q.store e run,
  (λ k. absurd (ground (arith, (same.0 k).0)), λ k. absurd (ground (arith, k.1))),
)

reconcile_all-Ran :
    (c : Chain) (hs : List TxHash) (p : Progress) → Ran c hs p (reconcile_all c hs p)
unfolding reconcile_all
reconcile_all-Ran c [] p = (true, Reconciled.finished p.store, (λ h. (h, refl), λ h. h.0))
reconcile_all-Ran c (h ∷ hs) p =
    let answer = reconcile_transaction c h p.store in
    settle_hash-Ran c h hs p (reconcile_all c hs (settle_hash h p answer)) answer.0 answer.1 refl
      (reconcile_all-Ran c hs (settle_hash h p answer))

module _ (c : Chain) (provider : Provider) (latest : ℕ) where
  -- The transactions that are discovered in the blocks from `first` to `last` are reconciled.
  abbrev pub Worked : ℕ → ℕ → Store → Bool → Store → Type 0
  Worked first last s clean t =
      Reconciled c
        (discover_transaction_hashes provider first last c.rent_distribution_address s.properties) s
        clean t

  -- Chunks that follow each other without a gap from one block up to just before another, each without
  -- a failure, and with the sync state moved to the end of each.
  pub data Chunks : ℕ → Store → ℕ → Store → Type 0 where
    done : (n : ℕ) (s : Store) → Chunks n s n s
    chunk :
        (first last next : ℕ) (s u t : Store)
        → first ≤ last
        → last ≤ latest
        → Worked first last s true u
        → Chunks (last + 1) (set_sync_state last u) next t
        → Chunks first s next t

  -- After the chunks the pass is at its end, beyond the latest block, or it ended with the failure
  -- of a transaction in the next chunk, which leaves the sync state.
  pub record Passed (first : ℕ) (s t : Store) : Type 0 where
    pub next : ℕ
    pub before : Store
    pub chunks : Chunks first s next before
    pub ends :
        ((latest < next) × (t ≡ before))
        ⊎ ((last : ℕ) × (next ≤ last)
            × (last ≤ latest)
            × Worked next last before false t
            × (get_sync_state t ≡ get_sync_state before))

  add_chunk :
      (first last : ℕ) (s u t : Store)
      → first ≤ last
      → last ≤ latest
      → Worked first last s true u
      → Passed (last + 1) (set_sync_state last u) t
      → Passed first s t
  add_chunk first last s u t low high clean rest = record {
    next = rest.next;
    before = rest.before;
    chunks = Chunks.chunk first last rest.next s u rest.before low high clean rest.chunks;
    ends = rest.ends;
  }

  stop_here :
      (first last : ℕ) (s t : Store)
      → first ≤ last
      → last ≤ latest
      → Worked first last s false t
      → get_sync_state t ≡ get_sync_state s
      → Passed first s t
  stop_here first last s t low high broken same = record {
    next = first;
    before = s;
    chunks = Chunks.done first s;
    ends = inr (last, low, high, broken, same);
  }

  -- The chunk from a block on reconciles what is discovered there, and reports a failure if there
  -- is one.
  reconcile_chunk-Worked :
      (current processed : ℕ) (s : Store)
      → let p = reconcile_chunk c provider latest current processed s in
        (clean : Bool) × Worked current (chunk_end c provider latest current) s clean p.store
        × ((p.failed ≡ []) ↔ (clean ≡ true))
  unfolding reconcile_chunk
  reconcile_chunk-Worked current processed s =
      let (clean, run, same) =
        reconcile_all-Ran c
          (discover_transaction_hashes provider current (chunk_end c provider latest current)
            c.rent_distribution_address s.properties)
          (record { processed = processed; failed = []; store = s }) in
      (clean, run, (λ h. (same.0 h).1, λ h. same.1 (refl, h)))

  clean_chunk :
      (current processed : ℕ) (s : Store)
      → (reconcile_chunk c provider latest current processed s).failed ≡ []
      → Worked current
          (chunk_end c provider latest current)
          s
          true
          (reconcile_chunk c provider latest current processed s).store
  clean_chunk current processed s h =
      let (clean, run, same) = reconcile_chunk-Worked current processed s in rw (← same.0 h) run

  broken_chunk :
      (current processed : ℕ) (s : Store)
      → (reconcile_chunk c provider latest current processed s).failed ≢ []
      → Worked current
          (chunk_end c provider latest current)
          s
          false
          (reconcile_chunk c provider latest current processed s).store
  broken_chunk current processed s h =
      let (clean, run, same) = reconcile_chunk-Worked current processed s in
      elim (Bool-cases clean) [ inl e ↦ absurd (h (same.1 e)) | inr e ↦ rw (← e) run ]

  pub chunk_loop-Passed :
      (fuel current processed : ℕ) (s : Store)
      → latest < fuel + current
      → Passed current s (chunk_loop c provider latest fuel current processed s).1
  unfolding chunk_loop
  chunk_loop-Passed zero current processed s h = record {
    next = current;
    before = s;
    chunks = Chunks.done current s;
    ends = inl (omega arith, refl);
  }
  chunk_loop-Passed (suc fuel) current processed s h = elim (Bool-cases (leb current latest)) [
    | inr e ↦ rw e (record {
      next = current;
      before = s;
      chunks = Chunks.done current s;
      ends = inl (ground arith, refl);
    })
    | inl e ↦
        let end = chunk_end c provider latest current in
        let p = reconcile_chunk c provider latest current processed s in
        let (low, high) = chunk_end_bounds c provider latest current (ground arith) in
        elim (failed-cases p.failed) [
          | inl clean ↦
              rw (e, clean)
                (add_chunk current end s p.store _ low high (clean_chunk current processed s clean)
                  (chunk_loop-Passed fuel (end + 1) p.processed (set_sync_state end p.store)
                    (omega arith)))
          | inr (x, xs, broken) ↦
              rw (e, broken)
                (stop_here current end s p.store low high
                  (broken_chunk current processed s (λ empty. cc (broken, empty)))
                  (reconcile_chunk_sync_state c provider latest current processed s))
        ]
  ]
