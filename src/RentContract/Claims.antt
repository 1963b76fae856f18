-- ===== src/RentContract/Claims.antt =====
-- Claims and accruals of contracts/RentDistribution.sol.
use web3_real_estate.Base.{
  ℕ, ◌+◌, ◌-◌, ◌≤◌, ◌<◌, ◌≡◌, refl, ◌↔◌, true, false, some, arith, nat_eq, pair_eq, eqb, ◌&&◌,
  if◌then◌else◌,
}
use web3_real_estate.Base.Ledger.{amount_of, put, amount_of-put, total-put, amount_of-le}
use web3_real_estate.Indexer.Rows.{Address}
use web3_real_estate.RentContract.{Contract, claim_rewards, accrue_investor_rewards, credit, word}
use web3_real_estate.RentContract.Sound.{IsSound, owed, credit-some, owed-credited, agrees-credited}

-- What the contract has for an investor of a property.
abbrev pub claimable : ℕ → Address → Contract → ℕ
claimable p w s = amount_of (p, w) s.property_claimable_rewards

-- A sound contract pays every claim of an investor who accepts ether: if the property is registered, the contract is not paused, the
-- investor has something to claim and the totals of claimed rewards stay within a word, the claim
-- succeeds and sends all of it. Afterwards nothing is left to claim there, the claims of other
-- investors and properties are as before, and the contract is sound.
pub claim_rewards-pays :
    (p : ℕ) (w : Address) (s : Contract)
    → IsSound s
    → s.paused ≡ false
    → (s.properties p).active ≡ true
    → 0 < claimable p w s
    → amount_of (p, w) s.property_claimed_rewards + claimable p w s < word
    → amount_of w s.total_claimed_rewards + claimable p w s < word
    → (s' : Contract) × (claim_rewards true p w s ≡ some (claimable p w s, s'))
      × IsSound s'
      × (s'.balance + claimable p w s ≡ s.balance)
      × ((q : ℕ) (v : Address)
          → claimable q v s' ≡ (if eqb q p && eqb v w then 0 else claimable q v s))
claim_rewards-pays p w s sound open_ active some_due fits fits_all = (
  s',
  unfold claim_rewards in ground (arith, open_, active, some_due, fits, fits_all, covered, funded),
  record {
    agrees = λ v. ground (
      arith,
      covered,
      sound.agrees v,
      amount_of-put v w (amount_of w s.claimable_rewards - amount) s.claimable_rewards,
      total-put (λ k. eqb v k.1) (p, w) 0 s.property_claimable_rewards,
    );
    solvent =
        omega (arith, sound.solvent, total-put (λ k. true) (p, w) 0 s.property_claimable_rewards);
  },
  omega (arith, funded),
  λ q v. ground (arith, amount_of-put (q, v) (p, w) 0 s.property_claimable_rewards),
)
  where
    amount : ℕ
    amount = claimable p w s

    covered : amount ≤ amount_of w s.claimable_rewards
    covered =
        ground
          (arith, sound.agrees w, amount_of-le (λ k. eqb w k.1) (p, w) s.property_claimable_rewards)

    funded : amount ≤ s.balance
    funded =
        omega
          (arith, sound.solvent, amount_of-le (λ k. true) (p, w) s.property_claimable_rewards refl)

    s' : Contract
    s' = record s {
      property_claimable_rewards = put (p, w) 0 s.property_claimable_rewards;
      claimable_rewards = put w (amount_of w s.claimable_rewards - amount) s.claimable_rewards;
      property_claimed_rewards =
          put (p, w) (amount_of (p, w) s.property_claimed_rewards + amount)
            s.property_claimed_rewards;
      total_claimed_rewards =
          put w (amount_of w s.total_claimed_rewards + amount) s.total_claimed_rewards;
      balance = s.balance - amount;
    }

-- An accrual brings no ether: it leaves a sound contract sound exactly if the ether that the
-- contract holds above what it owes covers the amount.
pub accrue_investor_rewards-IsSound :
    (p : ℕ) (w : Address) (amount : ℕ) (s s' : Contract)
    → accrue_investor_rewards p w amount s ≡ some s'
    → IsSound s
    → IsSound s' ↔ (owed s + amount ≤ s.balance)
accrue_investor_rewards-IsSound p w amount s s' e sound =
    let c : credit p w amount s ≡ some s' = unfold accrue_investor_rewards in ground (arith, e) in
    let f = credit-some p w amount s s' c in
    let o = owed-credited p w amount s in
    rw f (
      λ k. omega (arith, o, k.solvent),
      λ h. record {
        agrees = λ v. agrees-credited p w amount s v (sound.agrees v);
        solvent = omega (arith, o, h);
      },
    )
