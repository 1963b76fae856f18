-- ===== src/Indexer/Sync.antt =====
-- `sync_once`: one pass over the new blocks, in chunks that are committed one by one.
pub mod Frame
pub mod Steps
pub mod Passes
pub mod Outcome
pub mod Lost
use web3_real_estate.Base.{
  ℕ, zero, suc, ◌+◌, ◌-◌, some, List, [], ◌∷◌, ◌&&◌, eqb, leb, truthy, get_or, if◌then◌else◌,
  Result, ok, err, min,
}
use Prim.Native.Nat.{max}
use web3_real_estate.Indexer.Rows.{TxHash, Store, Failure}
use web3_real_estate.Indexer.Chain.{Chain}
use web3_real_estate.Indexer.Logs.{Provider, discover_transaction_hashes}
use web3_real_estate.Indexer.Reconcile.{Summary, reconcile_transaction}

-- `BLOCK_CHUNK_SIZE` and `REPLAY_DEPTH`
abbrev pub block_chunk_size : ℕ
block_chunk_size = 500

abbrev pub replay_depth : ℕ
replay_depth = 5

-- `_get_sync_state`. The row of zero that it inserts is committed only with a later write of it.
unfoldable pub get_sync_state : Store → ℕ
get_sync_state s = get_or s.sync_state 0

unfoldable pub set_sync_state : ℕ → Store → Store
set_sync_state last_block s = record s { sync_state = some last_block }

-- What the loop over the hashes of a chunk has done: how many succeeded, and which failed.
pub record Progress : Type 0 where
  pub processed : ℕ
  pub failed : List TxHash
  pub store : Store

unfoldable pub settle_hash : TxHash → Progress → Result Failure Summary × Store → Progress
settle_hash h p (ok _, s) = record p { processed = p.processed + 1; store = s }
settle_hash h p (err _, s) = record p { failed = h ∷ p.failed; store = s }

unfoldable pub reconcile_all : Chain → List TxHash → Progress → Progress
reconcile_all c [] p = p
reconcile_all c (h ∷ hs) p =
    reconcile_all c hs (settle_hash h p (reconcile_transaction c h p.store))

module _ (c : Chain) (provider : Provider) (latest : ℕ) where
  unfoldable pub chunk_end : ℕ → ℕ
  chunk_end current = min (current + block_chunk_size - 1) latest

  unfoldable pub reconcile_chunk : ℕ → ℕ → Store → Progress
  reconcile_chunk current processed s =
      reconcile_all c
        (discover_transaction_hashes provider current (chunk_end current)
          c.rent_distribution_address s.properties)
        (record { processed = processed; failed = []; store = s })

  -- The `while` loop. A failure ends it with the sync state of the chunk before.
  unfoldable pub chunk_loop : ℕ → ℕ → ℕ → Store → ℕ × Store
  chunk_loop zero current processed s = (processed, s)
  chunk_loop (suc fuel) current processed s =
      let p = reconcile_chunk current processed s in
      let rest =
        chunk_loop fuel (chunk_end current + 1) p.processed
          (set_sync_state (chunk_end current) p.store) in
      let settled : ℕ × Store = elim p.failed [ [] ↦ rest | _ ∷ _ ↦ (p.processed, p.store) ] in
      if leb current latest then settled else (processed, s)

  -- The first run is moved forward to `INDEXER_START_BLOCK`.
  unfoldable pub seed_sync_state : ℕ → Store → Store
  seed_sync_state start_block s =
      if eqb (get_sync_state s) 0 && truthy start_block then set_sync_state start_block s else s

  unfoldable pub first_block : ℕ → Store → ℕ
  first_block start_block s = max start_block (get_sync_state s - replay_depth)

  -- The number of transactions processed, and the database after the pass.
  unfoldable pub sync_once : ℕ → Store → ℕ × Store
  sync_once start_block s =
      let s' = seed_sync_state start_block s in
      if leb latest (get_sync_state s')
      then (0, s')
      else chunk_loop (suc latest) (first_block start_block s') 0 s'
