-- ===== src/Tests/Funding.antt =====
-- Runs of the theorems on wallet funding and on the circuit breaker.
use web3_real_estate.Base.{
  ℕ, ◌-◌, ◌*◌, ◌≤◌, ◌<◌, ◌≡◌, refl, ◌↔◌, true, false, none, some, [], ◌∷◌, arith, ok,
}
use web3_real_estate.Base.Int.{pos}
use web3_real_estate.Funding.{
  Node, Offer, StoredPrice, WalletFundingCheck, read_native_balance_wei, compare_balance,
  read_sale_price_per_token_wei, on_chain_price, check_wallet_covers_required_wei,
  check_investor_can_fund_investment, total_price, investor_funded,
}
use web3_real_estate.Breaker.{CircuitBreaker, call, failing, count, new_breaker, failing_opens}

abbrev pub node : Node
node = record { is_address = λ a. true; native_balance = λ a. ok 100; sale_price = λ a. some 30 }

abbrev short : WalletFundingCheck
short = record { funded = false; required_wei = 120; balance_wei = 100; shortfall_wei = 20 }

abbrev pub offer : Offer
offer = record {
  token_address = some 70;
  token_sale_price_wei = StoredPrice.missing;
  token_price_base = StoredPrice.missing;
}

order_answer : check_investor_can_fund_investment node 7 offer (pos 4) ≡ ok short
unfolding check_investor_can_fund_investment read_sale_price_per_token_wei on_chain_price
    total_price check_wallet_covers_required_wei read_native_balance_wei compare_balance
order_answer = refl

investor_funded_example :
    (price : ℕ) × (read_sale_price_per_token_wei node offer ≡ ok price)
    × (0 < price)
    × (read_native_balance_wei node 7 ≡ ok 100)
    × ((false ≡ true) ↔ (price * 4 ≤ 100))
    × (short.shortfall_wei ≡ price * 4 - 100)
investor_funded_example = investor_funded node 7 offer 4 short order_answer

abbrev fresh : CircuitBreaker
fresh = record { fail_max = 3; reset_timeout = 25; failures = 0; opened_at = none }

fresh_is_new : new_breaker 3 25 ≡ fresh
unfolding new_breaker
fresh_is_new = refl

two_counted : count ((9, 10) ∷ (10, 11) ∷ []) ≡ 2
unfolding count
two_counted = refl

failing_opens_example :
    let tripped = (call none tt 11 12 (failing ((9, 10) ∷ (10, 11) ∷ []) fresh)).2 in
    (tripped.opened_at ≡ some 12) × (call {A = ℕ} (some 1) 0 20 21 tripped ≡ (0, false, tripped))
failing_opens_example =
    failing_opens ℕ ((9, 10) ∷ (10, 11) ∷ []) 11 12 20 21 (some 1) 0 fresh refl
      (ground (arith, two_counted)) (omega arith)

abbrev tripped_at_12 : CircuitBreaker
tripped_at_12 = record { fail_max = 3; reset_timeout = 25; failures = 3; opened_at = some 12 }
