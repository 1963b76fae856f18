-- ===== src/RentContract/Reach.antt =====
-- The storage that the calls of contracts/RentDistribution.sol can lead to, one after the other.
use web3_real_estate.Base.{
  ℕ, ◌+◌, ◌≤◌, ◌≡◌, refl, Bool, true, false, some, List, [], ◌∷◌, arith, eqb, Bool-cases, inl, inr,
}
use web3_real_estate.Base.Ledger.{amount_of, total}
use web3_real_estate.Indexer.Rows.{Address, zero_address}
use web3_real_estate.Indexer.Chain.{Chain}
use web3_real_estate.RentContract.{
  Contract, Payment, register_property, set_monthly_rent, push_investor, add_investor,
  push_investors, add_investors, accrue_investor_rewards, pay_rent, claim_rewards,
}
use web3_real_estate.RentContract.Sound.{IsSound, owed}
use web3_real_estate.RentContract.Rents.{Backed, pay_rent-IsSound}
use web3_real_estate.RentContract.Claims.{claim_rewards-pays, accrue_investor_rewards-IsSound}

-- The storage after deployment
unfoldable pub new_contract : Contract
new_contract = record {
  properties = λ p. record { token_contract = zero_address; monthly_rent_wei = 0; active = false };
  investors = λ p. [];
  is_investor = λ p w. false;
  claimable_rewards = [];
  property_claimable_rewards = [];
  total_claimed_rewards = [];
  property_claimed_rewards = [];
  total_rent_collected = 0;
  total_rent_distributed = 0;
  balance = 0;
  paused = false;
}

-- A transaction that does not revert. The tokens' balances may be others at each payment. `funded`
-- is the ether that an accrual finds in the contract above its debts.
pub data Step : Contract → Contract → Type 1 where
  registers :
      (p : ℕ) (token : Address) (s s' : Contract)
      → register_property p token s ≡ some s'
      → Step s s'
  sets_rent : (p rent : ℕ) (s s' : Contract) → set_monthly_rent p rent s ≡ some s' → Step s s'
  adds : (p : ℕ) (w : Address) (s s' : Contract) → add_investor p w s ≡ some s' → Step s s'
  adds_all :
      (p : ℕ) (ws : List Address) (s s' : Contract) → add_investors p ws s ≡ some s' → Step s s'
  pays :
      (c : Chain) (accepts : Bool) (p value : ℕ) (s s' : Contract) (r : Payment)
      → (e : pay_rent c accepts p value s ≡ some (r, s')) → Backed c accepts p value s s' r e
      → Step s s'
  claims :
      (accepts : Bool) (p : ℕ) (w : Address) (a : ℕ) (s s' : Contract)
      → claim_rewards accepts p w s ≡ some (a, s')
      → Step s s'
  accrues :
      (p : ℕ) (w : Address) (a : ℕ) (s s' : Contract)
      → accrue_investor_rewards p w a s ≡ some s'
      → owed s + a ≤ s.balance
      → Step s s'
  pauses : (b : Bool) (s : Contract) → Step s (record s { paused = b })
  receives : (a : ℕ) (s : Contract) → Step s (record s { balance = s.balance + a })

pub data Reachable : Contract → Type 1 where
  start : Reachable new_contract
  next : (s s' : Contract) → Reachable s → Step s s' → Reachable s'

push_investor-IsSound :
    (p : ℕ) (w : Address) (s : Contract) → IsSound s → IsSound (push_investor p w s)
unfolding push_investor
push_investor-IsSound p w s h = elim (Bool-cases (s.is_investor p w)) [
  | inl e ↦ rw e h
  | inr e ↦ rw e (record { agrees = h.agrees; solvent = h.solvent })
]

push_investors-IsSound :
    (p : ℕ) (ws : List Address) (s : Contract) → IsSound s → IsSound (push_investors p ws s)
unfolding push_investors
push_investors-IsSound p [] s h = h
push_investors-IsSound p (w ∷ ws) s h = elim (Bool-cases (eqb w zero_address)) [
  | inl e ↦ rw e (push_investors-IsSound p ws s h)
  | inr e ↦ rw e (push_investors-IsSound p ws (push_investor p w s) (push_investor-IsSound p w s h))
]

claim_rewards-IsSound :
    (accepts : Bool) (p : ℕ) (w : Address) (a : ℕ) (s s' : Contract)
    → claim_rewards accepts p w s ≡ some (a, s')
    → IsSound s
    → IsSound s'
claim_rewards-IsSound accepts p w a s s' e h =
    let taken : claim_rewards true p w s ≡ some (a, s') =
      unfold claim_rewards in ground (arith, e) in
    let (t, f, sound, _, _) =
      claim_rewards-pays p w s h (unfold claim_rewards in ground (arith, e))
        (unfold claim_rewards in ground (arith, e)) (unfold claim_rewards in ground (arith, e))
        (unfold claim_rewards in ground (arith, e)) (unfold claim_rewards in ground (arith, e)) in
    let same : s' ≡ t = cc in rw same sound

ledgers_kept :
    (s s' : Contract)
    → IsSound s
    → (s'.claimable_rewards ≡ s.claimable_rewards)
      × (s'.property_claimable_rewards ≡ s.property_claimable_rewards)
      × (s'.balance ≡ s.balance)
    → IsSound s'
ledgers_kept s s' h (a, b, d) = record {
  agrees = λ w. rw (a, b) (h.agrees w);
  solvent = rw (b, d) (h.solvent);
}

Step-IsSound : (s s' : Contract) → IsSound s → Step s s' → IsSound s'
Step-IsSound s s' h (Step.registers p token _ _ e) =
    ledgers_kept s s' h (unfold register_property in ground (arith, e))
Step-IsSound s s' h (Step.sets_rent p rent _ _ e) =
    ledgers_kept s s' h (unfold set_monthly_rent in ground (arith, e))
Step-IsSound s s' h (Step.adds p w _ _ e) =
    let f : push_investor p w s ≡ s' = unfold add_investor in ground (arith, e) in
    rw (← f) (push_investor-IsSound p w s h)
Step-IsSound s s' h (Step.adds_all p ws _ _ e) =
    let f : push_investors p ws s ≡ s' = unfold add_investors in ground (arith, e) in
    rw (← f) (push_investors-IsSound p ws s h)
Step-IsSound s s' h (Step.pays c accepts p value _ _ r e b) =
    (pay_rent-IsSound c accepts p value s s' r e b h).0
Step-IsSound s s' h (Step.claims accepts p w a _ _ e) = claim_rewards-IsSound accepts p w a s s' e h
Step-IsSound s s' h (Step.accrues p w a _ _ e b) =
    (accrue_investor_rewards-IsSound p w a s s' e h).1 b
Step-IsSound s _ h (Step.pauses b _) = record { agrees = h.agrees; solvent = h.solvent }
Step-IsSound s _ h (Step.receives a _) = record {
  agrees = h.agrees;
  solvent = omega (arith, h.solvent);
}

-- Whatever calls are made, in whatever order: as long as the tokens' supplies cover what the
-- registered investors hold at each payment and each accrual is covered by ether above the debts, the
-- ledgers of the contract agree and its ether covers all that it owes.
pub Reachable-IsSound : (s : Contract) → Reachable s → IsSound s
Reachable-IsSound _ Reachable.start = record {
  agrees = λ w. unfold new_contract total amount_of in refl;
  solvent = unfold new_contract total in omega arith;
}
Reachable-IsSound s (Reachable.next s0 _ r step) = Step-IsSound s0 s (Reachable-IsSound s0 r) step
