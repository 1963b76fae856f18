-- ===== src/Investments/Conflict.antt =====
-- `confirm_investment` of backend/api/routers/investments.py, when the indexer was there first.
use web3_real_estate.Base.{
  ℕ, ◌≡◌, refl, Bool, true, false, Option, none, some, arith, err, nat_eq, Option-cases, inl, inr,
}
use web3_real_estate.Base.Keyed.{find}
use web3_real_estate.Indexer.Rows.{TxHash, InvestmentRow}
use web3_real_estate.Indexer.Chain.{Chain, Tx}
use web3_real_estate.Yield.{Rpc}
use web3_real_estate.RentRoutes.{User, Site, HttpError}
use web3_real_estate.Investments.{AwaitingRow, Desk, Answer, refuse, guard}
use web3_real_estate.Investments.Confirmation.{
  PreparedRow, matches_prepared, claim_hash, confirm_prepared, prepared_row, confirm_investment,
}

-- An answer that is an error and leaves everything as it was.
abbrev pub Fails : Desk → Answer InvestmentRow → Type 0
Fails d r = (e : HttpError) × (r ≡ (err e, d))

guard-Fails :
    (d : Desk) (b : Bool) (e : HttpError) (next : Answer InvestmentRow)
    → Fails d next
    → Fails d (guard b e d next)
guard-Fails d true e next h = h
guard-Fails d false e next h = (e, refl)

option-Fails :
    {B : Type 0} (d : Desk) (o : Option B) (e : HttpError) (k : B → Answer InvestmentRow)
    → ((x : B) → Fails d (k x))
    → Fails d (elim o [ none ↦ refuse e d | some x ↦ k x ])
option-Fails d none e k h = (e, refl)
option-Fails d (some x) e k h = h x

module _ (c : Chain) (rpc : Rpc) (site : Site) where
  hash_taken :
      (user : User) (tx : Tx) (tx_hash : TxHash) (now : ℕ) (row : AwaitingRow) (d : Desk)
      (indexed : InvestmentRow)
      → find (λ (r : InvestmentRow). r.deposit_tx_hash) tx_hash d.world.store.investments
        ≡ some indexed
      → Fails d (confirm_prepared c rpc site user tx tx_hash now (PreparedRow.awaits row) d)
  unfolding confirm_prepared claim_hash
  hash_taken user tx tx_hash now row d indexed l =
      elim (Option-cases
        (matches_prepared c rpc site user tx row.property_id row.investor_wallet d)) [
          | inl k ↦ (HttpError.server_error, ground (arith, k, l))
          | inr (e, k) ↦ (e, ground (arith, k))
        ]

  -- If the indexer has already recorded a purchase under its hash, no confirmation of an order that
  -- still awaits its hash succeeds with that hash, whoever asks and whatever the receipt says: it
  -- answers an error and leaves the order, the investments and the contract as they are.
  pub confirm_investment_late :
      (user : User) (i : ℕ) (tx_hash : TxHash) (now : ℕ) (d : Desk) (row : AwaitingRow)
      (indexed : InvestmentRow)
      → find (λ (r : AwaitingRow). r.id) i d.awaiting ≡ some row
      → find (λ (r : InvestmentRow). r.deposit_tx_hash) tx_hash d.world.store.investments
        ≡ some indexed
      → Fails d (confirm_investment c rpc site user i tx_hash now d)
  unfolding confirm_investment
  confirm_investment_late user i tx_hash now d row indexed g l = guard-Fails d _ _ _ (
      option-Fails d (c.get_receipt tx_hash) _ _ λ receipt.
        guard-Fails d _ _ _
          (option-Fails d (c.get_transaction tx_hash) _ _ λ tx. guard-Fails d _ _ _ (prepared tx)))
    where
      found : prepared_row c rpc site i d ≡ some (PreparedRow.awaits row)
      found = unfold prepared_row in ground (arith, g)

      prepared :
          (tx : Tx)
          → Fails d (elim (prepared_row c rpc site i d) [
            | none ↦ refuse HttpError.not_found d
            | some r ↦ confirm_prepared c rpc site user tx tx_hash now r d
          ])
      prepared tx = rw found (hash_taken user tx tx_hash now row d indexed l)
