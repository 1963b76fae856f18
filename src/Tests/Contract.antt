-- ===== src/Tests/Contract.antt =====
-- Runs of the theorems on the rent contract.
use web3_real_estate.Base.{
  ℕ, ◌+◌, ◌≤◌, ◌≡◌, refl, ◌↔◌, true, false, ◌&&◌, eqb, if◌then◌else◌, some, [], ◌∷◌, arith, nat_eq,
  pair_eq,
}
use web3_real_estate.Base.Ledger.{amount_of, put, total}
use web3_real_estate.Indexer.Chain.{Chain}
use web3_real_estate.RentContract.{
  Contract, PropertyInfo, Payment, pay_rent, all_read, distribute, payouts, payout, paid_count,
  distributed, credit_all, credit, count, claim_rewards, accrue_investor_rewards, register_property,
}
use web3_real_estate.RentContract.Sound.{IsSound, owed}
use web3_real_estate.RentContract.Rents.{pay_rent-IsSound}
use web3_real_estate.RentContract.Claims.{
  claimable, claim_rewards-pays, accrue_investor_rewards-IsSound,
}
use web3_real_estate.RentContract.Reach.{Reachable, Step, new_contract, Reachable-IsSound}
use web3_real_estate.Tests.Indexer.{chain}

-- Wallets 7 and 8 hold 60 and 40 of the 100 tokens of contract 70.
abbrev pub token_chain : Chain
token_chain = record chain {
  balance_of = λ token a. if eqb a 7 then some 60 else if eqb a 8 then some 40 else some 0;
  total_supply = λ token. some 100;
  rent_distribution_address = some 90;
}

abbrev rented_house : PropertyInfo
rented_house = record { token_contract = 70; monthly_rent_wei = 1000; active = true }

-- Wallet 7 alone is registered.
abbrev pub rented : Contract
rented = record {
  properties = λ p. rented_house;
  investors = λ p. 7 ∷ [];
  is_investor = λ p a. eqb a 7;
  claimable_rewards = [];
  property_claimable_rewards = [];
  total_claimed_rewards = [];
  property_claimed_rewards = [];
  total_rent_collected = 0;
  total_rent_distributed = 0;
  balance = 0;
  paused = false;
}

-- After a rent of 1000 that was paid with 1500.
abbrev pub paid_once : Contract
paid_once = record rented {
  claimable_rewards = (7, 600) ∷ [];
  property_claimable_rewards = ((1, 7), 600) ∷ [];
  total_rent_collected = 1000;
  total_rent_distributed = 600;
  balance = 1000;
}

abbrev first_payment : Payment
first_payment = record {
  rent_amount = 1000;
  paid = record { investor = 7; amount = 600; bps = 6000 } ∷ [];
  total_distributed = 600;
  investor_count = 1;
  refund = 500;
}

first_answer : pay_rent token_chain true 1 1500 rented ≡ some (first_payment, paid_once)
unfolding pay_rent all_read distribute payouts payout paid_count distributed credit_all credit count
    amount_of put
first_answer = refl

rented-IsSound : IsSound rented
unfolding total amount_of
rented-IsSound = record { agrees = λ w. refl; solvent = omega arith }

pay_rent-IsSound_example :
    IsSound paid_once
    × (1000 ≡ 0 + 1000)
    × (1000 ≡ 0 + 1000)
    × (owed rented ≤ owed paid_once)
    × (owed paid_once ≤ owed rented + 1000)
pay_rent-IsSound_example =
    pay_rent-IsSound token_chain true 1 1500 rented paid_once first_payment first_answer
      (λ n e. ground (arith, e)) rented-IsSound

paid_once-IsSound : IsSound paid_once
paid_once-IsSound = pay_rent-IsSound_example.0

due_to_7 : claimable 1 7 paid_once ≡ 600
unfolding amount_of
due_to_7 = refl

claim_rewards-pays_example :
    (s' : Contract) × (claim_rewards true 1 7 paid_once ≡ some (claimable 1 7 paid_once, s'))
    × IsSound s'
    × (s'.balance + claimable 1 7 paid_once ≡ 1000)
    × ((q v : ℕ) → claimable q v s' ≡ (if eqb q 1 && eqb v 7 then 0 else claimable q v paid_once))
unfolding amount_of
claim_rewards-pays_example =
    claim_rewards-pays 1 7 paid_once paid_once-IsSound refl refl (omega arith) (omega arith)
      (omega arith)

abbrev overdrawn : Contract
overdrawn = record paid_once {
  claimable_rewards = (7, 1400) ∷ [];
  property_claimable_rewards = ((1, 7), 1400) ∷ [];
}

overdraws : accrue_investor_rewards 1 7 800 paid_once ≡ some overdrawn
unfolding accrue_investor_rewards credit amount_of put
overdraws = refl

accrue_investor_rewards-IsSound_example : IsSound overdrawn ↔ (owed paid_once + 800 ≤ 1000)
accrue_investor_rewards-IsSound_example =
    accrue_investor_rewards-IsSound 1 7 800 paid_once overdrawn overdraws paid_once-IsSound

abbrev registered : Contract
registered = record (new_contract) {
  properties = λ i.
      if eqb i 1
      then record { token_contract = 70; monthly_rent_wei = 0; active = true }
      else record { token_contract = 0; monthly_rent_wei = 0; active = false };
}

registers_house : register_property 1 70 new_contract ≡ some registered
unfolding register_property new_contract
registers_house = refl

Reachable-IsSound_example : IsSound registered
Reachable-IsSound_example = Reachable-IsSound registered (
    Reachable.next new_contract registered Reachable.start
      (Step.registers 1 70 new_contract registered registers_house))
