-- ===== src/RentContract/Sound.antt =====
-- The ledgers of contracts/RentDistribution.sol under its calls.
use web3_real_estate.Base.{
  ℕ, ◌+◌, ◌-◌, ◌≤◌, ◌≡◌, refl, ◌∙◌, inl, inr, true, eqb, some, List, [], ◌∷◌, arith, Bool-cases,
  Option-cases, nat_eq, pair_eq,
}
use web3_real_estate.Base.Ledger.{amount_of, put, total, amount_of-put, total-put}
use web3_real_estate.Indexer.Rows.{Address}
use web3_real_estate.Indexer.Chain.{Chain}
use web3_real_estate.RentContract.{
  Contract, Payout, Payment, credit, credit_all, payouts, distribute,
}
use web3_real_estate.RentContract.Split.{paid}

-- What the contract owes over all properties.
abbrev pub owed : Contract → ℕ
owed s = total (λ k. true) s.property_claimable_rewards

abbrev pub owed_to : Address → Contract → ℕ
owed_to w s = total (λ k. eqb w k.1) s.property_claimable_rewards

-- The two ledgers of claimable rewards agree, and the contract's ether covers what it owes.
pub record IsSound (s : Contract) : Type 0 where
  pub agrees : (w : Address) → amount_of w s.claimable_rewards ≡ owed_to w s
  pub solvent : owed s ≤ s.balance

-- The storage that `credit` leaves, if nothing overflows.
abbrev pub credited : ℕ → Address → ℕ → Contract → Contract
credited p w a s = record s {
  claimable_rewards = put w (amount_of w s.claimable_rewards + a) s.claimable_rewards;
  property_claimable_rewards =
      put (p, w) (amount_of (p, w) s.property_claimable_rewards + a) s.property_claimable_rewards;
}

pub credit-some :
    (p : ℕ) (w : Address) (a : ℕ) (s s' : Contract)
    → credit p w a s ≡ some s'
    → s' ≡ credited p w a s
unfolding credit
credit-some p w a s s' e = ground (arith, e)

pub owed-credited :
    (p : ℕ) (w : Address) (a : ℕ) (s : Contract) → owed (credited p w a s) ≡ owed s + a
owed-credited p w a s = ground (
  arith,
  total-put (λ k. true) (p, w) (amount_of (p, w) s.property_claimable_rewards + a)
      s.property_claimable_rewards,
)

pub agrees-credited :
    (p : ℕ) (w : Address) (a : ℕ) (s : Contract) (v : Address)
    → amount_of v s.claimable_rewards ≡ owed_to v s
    → amount_of v (credited p w a s).claimable_rewards ≡ owed_to v (credited p w a s)
agrees-credited p w a s v h = ground (
  arith,
  total-put (λ k. eqb v k.1) (p, w) (amount_of (p, w) s.property_claimable_rewards + a)
      s.property_claimable_rewards,
  amount_of-put v w (amount_of w s.claimable_rewards + a) s.claimable_rewards,
)

-- What a loop of credits changes.
record Credits (a : ℕ) (s s' : Contract) : Type 0 where
  agrees_after :
      (w : Address)
      → amount_of w s.claimable_rewards ≡ owed_to w s
      → amount_of w s'.claimable_rewards ≡ owed_to w s'
  owed_after : owed s' ≡ owed s + a
  balance_after : s'.balance ≡ s.balance
  collected_after : s'.total_rent_collected ≡ s.total_rent_collected

credit-Credits :
    (p : ℕ) (w : Address) (a : ℕ) (s s' : Contract) → credit p w a s ≡ some s' → Credits a s s'
credit-Credits p w a s s' e =
    let f = credit-some p w a s s' e in
    record {
      agrees_after = λ v h. rw f (agrees-credited p w a s v h);
      owed_after = rw f (owed-credited p w a s);
      balance_after = rw f refl;
      collected_after = rw f refl;
    }

Credits-refl : (s : Contract) → Credits 0 s s
Credits-refl s = record {
  agrees_after = λ w h. h;
  owed_after = omega arith;
  balance_after = refl;
  collected_after = refl;
}

Credits-trans : (a b : ℕ) (s t u : Contract) → Credits a s t → Credits b t u → Credits (a + b) s u
Credits-trans a b s t u h k = record {
  agrees_after = λ w e. k.agrees_after w (h.agrees_after w e);
  owed_after = omega (arith, h.owed_after, k.owed_after);
  balance_after = k.balance_after ∙ h.balance_after;
  collected_after = k.collected_after ∙ h.collected_after;
}

some-eq : (s s' : Contract) → some s ≡ some s' → s ≡ s'
some-eq s s' e = cc

credit_all-Credits :
    (p : ℕ) (xs : List Payout) (s s' : Contract)
    → credit_all p xs s ≡ some s'
    → Credits (paid xs) s s'
credit_all-Credits p [] s s' e =
    let f : s ≡ s' = unfold credit_all in some-eq s s' e in rw (← f) (Credits-refl s)
credit_all-Credits p (x ∷ xs) s s' e = elim (Bool-cases (eqb x.amount 0)) [
  | inl z ↦
      let f : credit_all p xs s ≡ some s' = unfold credit_all in ground (arith, e, z) in
      let g : paid xs ≡ x.amount + paid xs = ground (arith, z) in
      rw (← g) (credit_all-Credits p xs s s' f)
  | inr z ↦ elim (Option-cases (credit p x.investor x.amount s)) [
    | inl n ↦ absurd (unfold credit_all in ground (arith, e, z, n))
    | inr (t, n) ↦
        let f : credit_all p xs t ≡ some s' = unfold credit_all in ground (arith, e, z, n) in
        Credits-trans x.amount (paid xs) s t s' (credit-Credits p x.investor x.amount s t n)
          (credit_all-Credits p xs t s' f)
  ]
]

-- A rent that is paid in full: the contract keeps the rent and owes its payouts.
pub record Pays (rent out : ℕ) (s s' : Contract) : Type 0 where
  pub agrees_paid :
      (w : Address)
      → amount_of w s.claimable_rewards ≡ owed_to w s
      → amount_of w s'.claimable_rewards ≡ owed_to w s'
  pub owed_paid : owed s' ≡ owed s + out
  pub balance_paid : s'.balance ≡ s.balance + rent
  pub collected_paid : s'.total_rent_collected ≡ s.total_rent_collected + rent

abbrev pub shares_in : Chain → ℕ → ℕ → ℕ → Contract → List Payout
shares_in c p rent supply s = payouts c (s.properties p).token_contract rent supply (s.investors p)

pub distribute-Pays :
    (c : Chain) (p value rent supply : ℕ) (s s' : Contract) (r : Payment)
    → rent ≤ value
    → distribute c p value rent supply s ≡ some (r, s')
    → Pays rent (paid (shares_in c p rent supply s)) s s'
distribute-Pays c p value rent supply s s' r le e =
    let start : Contract = record s {
      total_rent_collected = s.total_rent_collected + rent;
      balance = s.balance + value;
    } in
    elim (Option-cases (credit_all p (shares_in c p rent supply s) start)) [
      | inl n ↦ absurd (unfold distribute in ground (arith, e, n))
      | inr (t, n) ↦
          let k = credit_all-Credits p (shares_in c p rent supply s) start t n in
          let same : (s'.claimable_rewards ≡ t.claimable_rewards)
              × (s'.property_claimable_rewards ≡ t.property_claimable_rewards)
              × (s'.balance ≡ t.balance - (value - rent))
              × (s'.total_rent_collected ≡ t.total_rent_collected) =
            unfold distribute in ground (arith, e, n) in
          record {
            agrees_paid = λ w h. rw (same.0, same.1) (k.agrees_after w h);
            owed_paid = rw (same.1) (k.owed_after);
            balance_paid = omega (arith, same.2, k.balance_after);
            collected_paid = omega (arith, same.3, k.collected_after);
          }
    ]
