-- ===== src/Yield/Accruals.antt =====
-- What the accruals of `backfill_missed_rent_accruals` add to the debts of the rent contract.
use web3_real_estate.Base.{
  ℕ, ◌+◌, ◌-◌, ◌≡◌, refl, Bool, true, false, ◌&&◌, ◌||◌, not, leb, eqb, Option, none, some, List,
  [], ◌∷◌, ◌++◌, arith, Bool-cases, Option-cases, inl, inr,
}
use web3_real_estate.Indexer.Rows.{Address, DistributionRow}
use web3_real_estate.Indexer.Chain.{Chain}
use web3_real_estate.Indexer.Payouts.{Share}
use web3_real_estate.RentContract
use web3_real_estate.RentContract.{Contract, credit}
use web3_real_estate.RentContract.Sound.{owed, credited, credit-some, owed-credited}
use web3_real_estate.Yield.{
  Rpc, World, send, accrue_investor_rewards, is_active, get_rent_property_info,
}
use web3_real_estate.Yield.Backfill.{
  Credit, already_wei, passes, record_payout, backfill_entry, then_more, backfill_entries,
  backfill_distribution, backfill_distributions, distributions_of, backfill_missed_rent_accruals,
  breakdown,
}

-- An accrual that the contract accepts is a credit.
pub accrual_is_credit :
    (p : ℕ) (wallet : Address) (a : ℕ) (s s' : Contract)
    → RentContract.accrue_investor_rewards p wallet a s ≡ some s'
    → s' ≡ credited p wallet a s
accrual_is_credit p wallet a s s' e =
    credit-some p wallet a s s' (unfold RentContract.accrue_investor_rewards in ground (arith, e))

abbrev pub credit_sum : List Credit → ℕ
credit_sum [] = 0
credit_sum (x ∷ xs) = x.amount_wei + credit_sum xs

credit_sum-append : (xs ys : List Credit) → credit_sum (xs ++ ys) ≡ credit_sum xs + credit_sum ys
credit_sum-append [] ys = omega arith
credit_sum-append (x ∷ xs) ys = omega (arith, credit_sum-append xs ys)

module _ (rpc : Rpc) (sure : rpc.supports_accrue ≡ true) where
  -- An accrual that gets through leaves the store, and the contract with a credit.
  pub accrue_lem :
      (p : ℕ) (wallet : Address) (a : ℕ) (w w' : World)
      → accrue_investor_rewards rpc p wallet a w ≡ some w'
      → eqb a 0 ≡ false
      → (w'.store ≡ w.store) × (w'.contract ≡ credited p wallet a w.contract)
  accrue_lem p wallet a w w' e z =
      elim (Option-cases (RentContract.accrue_investor_rewards p wallet a w.contract)) [
        | inl n ↦ absurd (unfold accrue_investor_rewards send in ground (arith, e, n, z, sure))
        | inr (s, n) ↦
            let f : w' ≡ record w { contract = s } =
              unfold accrue_investor_rewards send in ground (arith, e, n, z, sure) in
            let g = accrual_is_credit p wallet a w.contract s n in (rw f refl, rw f g)
      ]

-- A call that returns has raised the debts by its credits.
abbrev pub Accounts : World → Option (List Credit) × World → Type 0
Accounts w r =
    (cs : List Credit) → r.0 ≡ some cs → owed r.1.contract ≡ owed w.contract + credit_sum cs

none_credited : (w : World) → Accounts w (some [], w)
none_credited w cs h = let f : [] ≡ cs = ground (arith, h) in rw (← f) (omega arith)

then_more-Accounts :
    (w : World) (r : Option (List Credit) × World) (rest : World → Option (List Credit) × World)
    → Accounts w r
    → ((u : World) → Accounts u (rest u))
    → Accounts w (then_more r rest)
then_more-Accounts w (none, u) rest h k cs e = absurd (ground (arith, e))
then_more-Accounts w (some done, u) rest h k cs e = elim (Option-cases (rest u).0) [
  | inl n ↦ absurd (ground (arith, e, n))
  | inr (bs, n) ↦
      let f : done ++ bs ≡ cs = ground (arith, e, n) in
      rw (← f, credit_sum-append done bs) (omega (arith, h done refl, k u bs n))
]

module _ (rpc : Rpc) (sure : rpc.supports_accrue ≡ true) (p : ℕ) (filter : List Address) where
  abbrev pub skipped : DistributionRow → Share → World → Bool
  skipped d x w =
      not (passes filter x.investor)
      || leb x.payout_wei (already_wei (d.id, x.investor) w.store.payouts)

  abbrev shortfall : DistributionRow → Share → World → ℕ
  shortfall d x w = x.payout_wei - already_wei (d.id, x.investor) w.store.payouts

  -- What one entry comes to: it is passed over, or its accrual fails, or the shortfall is credited
  -- and recorded.
  pub data Entry (d : DistributionRow) (x : Share) (w : World)
      : Option (List Credit) × World → Type 0 where
    skips : skipped d x w ≡ true → Entry d x w (some [], w)
    fails : skipped d x w ≡ false → Entry d x w (none, w)
    credits :
        (w' : World)
        → skipped d x w ≡ false
        → w'.store ≡ record_payout p d x w.store
        → w'.contract ≡ credited p x.investor (shortfall d x w) w.contract
        → Entry d x w (
          some (
              record {
                investor_wallet = x.investor;
                distribution_id = d.id;
                amount_wei = shortfall d x w;
              }
              ∷ []),
          w',
        )

  pub entry_lem :
      (d : DistributionRow) (x : Share) (w : World)
      → Entry d x w (backfill_entry rpc p filter d x w)
  unfolding backfill_entry
  entry_lem d x w = elim (Bool-cases (skipped d x w)) [
    | inl skip ↦ rw skip (Entry.skips skip)
    | inr go ↦ elim (Option-cases (accrue_investor_rewards rpc p x.investor (shortfall d x w) w)) [
      | inl n ↦ rw (go, n) (Entry.fails go)
      | inr (u, n) ↦
          let (same, credit) =
            accrue_lem rpc sure p x.investor (shortfall d x w) w u n (ground (arith, go)) in
          rw (go, n) (Entry.credits _ go (rw same refl) credit)
    ]
  ]

  Entry-Accounts :
      (d : DistributionRow) (x : Share) (w : World) (r : Option (List Credit) × World)
      → Entry d x w r
      → Accounts w r
  Entry-Accounts d x w _ (Entry.skips e) cs h = none_credited w cs h
  Entry-Accounts d x w _ (Entry.fails e) cs h = absurd (ground (arith, h))
  Entry-Accounts d x w _ (Entry.credits w' e s k) cs h =
      let f : record {
        investor_wallet = x.investor;
        distribution_id = d.id;
        amount_wei = shortfall d x w;
      }
            ∷ []
          ≡ cs =
        ground (arith, h) in
      rw (← f, k) (omega (arith, owed-credited p x.investor (shortfall d x w) w.contract))

  entries-Accounts :
      (d : DistributionRow) (xs : List Share) (w : World)
      → Accounts w (backfill_entries rpc p filter d xs w)
  unfolding backfill_entries
  entries-Accounts d [] w = none_credited w
  entries-Accounts d (x ∷ xs) w =
      then_more-Accounts w (backfill_entry rpc p filter d x w) (backfill_entries rpc p filter d xs)
        (Entry-Accounts d x w _ (entry_lem d x w)) (entries-Accounts d xs)

  distributions-Accounts :
      (c : Chain) (ds : List DistributionRow) (w : World)
      → Accounts w (backfill_distributions c rpc p filter ds w)
  unfolding backfill_distribution backfill_distributions
  distributions-Accounts c [] w = none_credited w
  distributions-Accounts c (d ∷ ds) w =
      then_more-Accounts w (backfill_distribution c rpc p filter d w)
        (backfill_distributions c rpc p filter ds) (one w) (distributions-Accounts c ds)
    where
      one : (u : World) → Accounts u (backfill_distribution c rpc p filter d u)
      one u = elim (Bool-cases (eqb d.total_rent_collected 0)) [
        | inl e ↦ rw e (none_credited u)
        | inr e ↦ rw e (entries-Accounts d (breakdown c rpc p d.total_rent_collected u) u)
      ]

  -- Where the contract can accrue, a backfill of missed rent that returns has raised what the
  -- contract owes by exactly the sum of the credits that it reports.
  pub backfill_missed_rent_accruals-owed :
      (c : Chain) (w : World) (cs : List Credit)
      → (backfill_missed_rent_accruals c rpc p filter w).0 ≡ some cs
      → owed (backfill_missed_rent_accruals c rpc p filter w).1.contract
        ≡ owed w.contract + credit_sum cs
  unfolding backfill_missed_rent_accruals
  backfill_missed_rent_accruals-owed c w =
      elim (Bool-cases (rpc.supports_accrue && is_active (get_rent_property_info rpc p w))) [
        | inl e ↦ rw e (distributions-Accounts c (distributions_of p w.store.distributions) w)
        | inr e ↦ rw e (none_credited w)
      ]
