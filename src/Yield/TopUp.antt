-- ===== src/Yield/TopUp.antt =====
-- `reconcile_investor_claimable_on_chain` as a whole.
use web3_real_estate.Base.{
  ℕ, ◌+◌, ◌-◌, ◌<◌, ◌≡◌, true, leb, some, arith, Bool-cases, Option-cases, inl, inr, pair_eq,
  nat_eq,
}
use web3_real_estate.Base.Ledger.{amount_of, amount_of-put}
use web3_real_estate.Indexer.Rows.{Address}
use web3_real_estate.Indexer.Chain.{Chain}
use web3_real_estate.RentContract.{Contract}
use web3_real_estate.RentContract.Sound.{credited}
use web3_real_estate.Yield.{Rpc, World, accrue_investor_rewards, get_property_claimable_rewards}
use web3_real_estate.Yield.Payouts.{pending, top_up, reconcile_investor_claimable_on_chain}
use web3_real_estate.Yield.Investors.{sync_investors_to_contract}
use web3_real_estate.Yield.Accruals.{accrue_lem}

claimable-credited :
    (p : ℕ) (wallet : Address) (a : ℕ) (s : Contract)
    → amount_of (p, wallet) (credited p wallet a s).property_claimable_rewards
      ≡ amount_of (p, wallet) s.property_claimable_rewards + a
claimable-credited p wallet a s = ground (
  arith,
  amount_of-put (p, wallet) (p, wallet) (amount_of (p, wallet) s.property_claimable_rewards + a)
      s.property_claimable_rewards,
)

module _ (rpc : Rpc) (sure : rpc.supports_accrue ≡ true) (p : ℕ) (wallet : Address) where
  top_up_lem :
      (due n : ℕ) (w w' : World)
      → top_up rpc p wallet due (amount_of (p, wallet) w.contract.property_claimable_rewards) w
        ≡ (some n, w')
      → 0 < n
      → amount_of (p, wallet) w'.contract.property_claimable_rewards ≡ due
  top_up_lem due n w w' e pos =
      let there : ℕ = amount_of (p, wallet) w.contract.property_claimable_rewards in
      elim (Bool-cases (leb due there)) [
        | inl f ↦ absurd (unfold top_up in ground (arith, e, f, pos))
        | inr f ↦ elim (Option-cases (accrue_investor_rewards rpc p wallet (due - there) w)) [
          | inl g ↦ absurd (unfold top_up in ground (arith, e, f, g))
          | inr (u, g) ↦
              let (_, k) = accrue_lem rpc sure p wallet (due - there) w u g (ground (arith, f)) in
              let same : u ≡ w' = unfold top_up in ground (arith, e, f, g) in
              rw (← same, k)
                (ground (arith, f, claimable-credited p wallet (due - there) w.contract))
        ]
      ]

  -- Where the contract can accrue, a reconciliation that reports an accrual has brought what the
  -- contract has for the investor to the sum of the investor's claimable payout rows, as it was when
  -- the reconciliation began.
  pub reconcile_investor_claimable_on_chain_lem :
      (c : Chain) (n : ℕ) (w w' : World)
      → reconcile_investor_claimable_on_chain c rpc p wallet w ≡ (some n, w')
      → 0 < n
      → amount_of (p, wallet) w'.contract.property_claimable_rewards
        ≡ pending p wallet w.store.payouts
  reconcile_investor_claimable_on_chain_lem c n w w' e pos =
      elim (Option-cases (sync_investors_to_contract c rpc p w).0) [
        | inl f ↦ absurd (unfold reconcile_investor_claimable_on_chain in ground (arith, e, f, pos))
        | inr (done, f) ↦
            let u : World = (sync_investors_to_contract c rpc p w).1 in
            elim (Bool-cases (rpc.reads p)) [
              | inl g ↦
                  top_up_lem (pending p wallet w.store.payouts) n u w'
                    (unfold reconcile_investor_claimable_on_chain get_property_claimable_rewards in
                      ground (arith, e, f, g, pos))
                    pos
              | inr g ↦ absurd (
                  unfold reconcile_investor_claimable_on_chain get_property_claimable_rewards in
                  ground (arith, e, f, g, pos))
            ]
      ]
