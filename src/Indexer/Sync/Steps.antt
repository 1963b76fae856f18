-- ===== src/Indexer/Sync/Steps.antt =====
-- What one chunk of a pass of `sync_once` does.
use web3_real_estate.Base.{
  ℕ, ◌≤◌, ◌≡◌, ◌⊎◌, inl, inr, refl, ap, Option, List, [], ◌∷◌, arith, get_or, Result, ok, err,
}
use web3_real_estate.Indexer.Rows.{Store, PropertyRow, TxHash, Failure}
use web3_real_estate.Indexer.Chain.{Chain}
use web3_real_estate.Indexer.Logs.{Provider}
use web3_real_estate.Indexer.Reconcile.{Summary}
use web3_real_estate.Indexer.Stable.Whole.{reconcile_Stable}
use web3_real_estate.Indexer.Sync.{
  Progress, settle_hash, reconcile_all, get_sync_state, chunk_end, reconcile_chunk,
}
use web3_real_estate.Indexer.Sync.Frame.{Frame, Frame-Stable}

pub failed-cases : (l : List TxHash) → (l ≡ []) ⊎ ((h : TxHash) × (hs : List TxHash) × (l ≡ h ∷ hs))
failed-cases [] = inl refl
failed-cases (h ∷ hs) = inr (h, hs, refl)

settle_hash-Frame :
    (n : Option ℕ) (rows : List PropertyRow) (h : TxHash) (p : Progress)
    (r : Result Failure Summary × Store)
    → Frame n rows r.1
    → Frame n rows (settle_hash h p r).store
unfolding settle_hash
settle_hash-Frame n rows h p (ok _, s) f = f
settle_hash-Frame n rows h p (err _, s) f = f

reconcile_all-Frame :
    (n : Option ℕ) (rows : List PropertyRow) (c : Chain) (hs : List TxHash) (p : Progress)
    → Frame n rows p.store
    → Frame n rows (reconcile_all c hs p).store
unfolding reconcile_all
reconcile_all-Frame n rows c [] p f = f
reconcile_all-Frame n rows c (h ∷ hs) p f =
    reconcile_all-Frame n rows c hs _
      (settle_hash-Frame n rows h p _ (reconcile_Stable (Frame-Stable n rows) c h p.store f))

module _ (c : Chain) (provider : Provider) (latest : ℕ) where
  pub reconcile_chunk_sync_state :
      (current processed : ℕ) (s : Store)
      → get_sync_state (reconcile_chunk c provider latest current processed s).store
        ≡ get_sync_state s
  unfolding reconcile_chunk get_sync_state
  reconcile_chunk_sync_state current processed s =
      ap (λ o. get_or o 0)
        (reconcile_all-Frame s.sync_state s.properties c _ _
          (record { same_sync_state = refl; same_properties = refl })).same_sync_state

  pub chunk_end_bounds :
      (current : ℕ)
      → current ≤ latest
      → (current ≤ chunk_end c provider latest current)
        × (chunk_end c provider latest current ≤ latest)
  unfolding chunk_end
  chunk_end_bounds current h = omega arith
