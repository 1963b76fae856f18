-- ===== src/Funding.antt =====
-- Whether a wallet can pay: backend/services/wallet_funding.py, investment_funding.py and
-- rent_payment_funding.py beside it.
use web3_real_estate.Base.{
  ℕ, suc, ◌-◌, ◌*◌, ◌≤◌, ◌<◌, ◌≡◌, ◌↔◌, Bool, true, false, leb, eqb, ltb, if◌then◌else◌, Option,
  none, some, Result, ok, err, arith, Result-cases, inl, inr,
}
use web3_real_estate.Base.Int.{ℤ, pos, negsuc}
use web3_real_estate.Indexer.Rows.{Address}

-- `WalletFundingError` and `InvestmentFundingError`, by their messages.
pub data FundingError : Type 0 where
  no_wallet negative_amount invalid_token sale_price_unreadable sale_price_zero : FundingError
  invalid_stored_price no_sale_price rent_not_configured : FundingError

-- `WalletFundingCheck`, without its texts
pub record WalletFundingCheck : Type 0 where
  pub funded : Bool
  pub required_wei : ℕ
  pub balance_wei : ℕ
  pub shortfall_wei : ℕ

-- What the checks read from the node: the balance of a wallet, with an exception as an error, and
-- the sale price of a token, none where the call raises.
pub record Node : Type 0 where
  pub is_address : Address → Bool
  pub native_balance : Address → Result FundingError ℕ
  pub sale_price : Address → Option ℕ

-- A price column of the property: absent or empty, no integer, or an integer.
pub data StoredPrice : Type 0 where
  missing bad : StoredPrice
  stored : ℤ → StoredPrice

pub record Offer : Type 0 where
  pub token_address : Option Address
  pub token_sale_price_wei : StoredPrice
  pub token_price_base : StoredPrice

module _ (node : Node) where
  unfoldable pub read_native_balance_wei : Address → Result FundingError ℕ
  read_native_balance_wei wallet =
      if node.is_address wallet then node.native_balance wallet else err FundingError.no_wallet

  unfoldable pub compare_balance : ℕ → ℕ → WalletFundingCheck
  compare_balance required balance =
      if leb required balance
      then record {
        funded = true;
        required_wei = required;
        balance_wei = balance;
        shortfall_wei = 0;
      }
      else record {
        funded = false;
        required_wei = required;
        balance_wei = balance;
        shortfall_wei = required - balance;
      }

  unfoldable pub check_wallet_covers_required_wei :
      Address → ℤ → Result FundingError WalletFundingCheck
  check_wallet_covers_required_wei wallet (negsuc n) = err FundingError.negative_amount
  check_wallet_covers_required_wei wallet (pos amount) = elim (read_native_balance_wei wallet) [
    | err e ↦ err e
    | ok balance ↦ ok (
        if eqb amount 0
        then record { funded = true; required_wei = 0; balance_wei = balance; shortfall_wei = 0 }
        else compare_balance amount balance)
  ]

  -- One turn of the loop over the price columns, then the rest.
  unfoldable pub stored_price : StoredPrice → Result FundingError ℕ → Result FundingError ℕ
  stored_price StoredPrice.missing rest = rest
  stored_price StoredPrice.bad rest = err FundingError.invalid_stored_price
  stored_price (StoredPrice.stored (negsuc n)) rest = rest
  stored_price (StoredPrice.stored (pos n)) rest = if ltb 0 n then ok n else rest

  unfoldable pub on_chain_price : Option ℕ → Result FundingError ℕ
  on_chain_price none = err FundingError.sale_price_unreadable
  on_chain_price (some n) = if ltb 0 n then ok n else err FundingError.sale_price_zero

  unfoldable pub read_sale_price_per_token_wei : Offer → Result FundingError ℕ
  read_sale_price_per_token_wei offer = elim offer.token_address [
    | some token ↦
        if node.is_address token
        then on_chain_price (node.sale_price token)
        else err FundingError.invalid_token
    | none ↦
        stored_price offer.token_sale_price_wei
          (stored_price offer.token_price_base (err FundingError.no_sale_price))
  ]

  -- `price * amount` for a positive price
  unfoldable pub total_price : ℕ → ℤ → ℤ
  total_price price (pos n) = pos (price * n)
  total_price price (negsuc n) = negsuc (price * suc n - 1)

  unfoldable pub check_investor_can_fund_investment :
      Address → Offer → ℤ → Result FundingError WalletFundingCheck
  check_investor_can_fund_investment wallet offer token_amount =
      elim (read_sale_price_per_token_wei offer) [
        | err e ↦ err e
        | ok price ↦ check_wallet_covers_required_wei wallet (total_price price token_amount)
      ]

  unfoldable pub check_tenant_can_pay_monthly_rent :
      Address → ℤ → Result FundingError WalletFundingCheck
  check_tenant_can_pay_monthly_rent wallet (negsuc n) = err FundingError.rent_not_configured
  check_tenant_can_pay_monthly_rent wallet (pos rent) =
      if eqb rent 0
      then err FundingError.rent_not_configured
      else check_wallet_covers_required_wei wallet (pos rent)

  -- A check that answers has looked at the wallet's balance; it says yes exactly if the balance
  -- covers what is required, and the shortfall is what is missing.
  check_wallet_covers_required_wei_lem :
      (wallet : Address) (amount : ℕ) (check : WalletFundingCheck)
      → check_wallet_covers_required_wei wallet (pos amount) ≡ ok check
      → (check.required_wei ≡ amount)
        × (read_native_balance_wei wallet ≡ ok check.balance_wei)
        × ((check.funded ≡ true) ↔ (amount ≤ check.balance_wei))
        × (check.shortfall_wei ≡ amount - check.balance_wei)
  unfolding check_wallet_covers_required_wei compare_balance
  check_wallet_covers_required_wei_lem wallet amount check e =
      elim (Result-cases (read_native_balance_wei wallet)) [
        | inr (x, f) ↦ ground (arith, e, f)
        | inl (b, f) ↦
            (ground (arith, e, f), ground (arith, e, f), ground (arith, e, f), ground (arith, e, f))
      ]

  -- The price that is read is never zero, so every order that is priced costs something.
  pub sale_price_positive :
      (offer : Offer) (price : ℕ) → read_sale_price_per_token_wei offer ≡ ok price → 0 < price
  unfolding read_sale_price_per_token_wei stored_price on_chain_price
  sale_price_positive offer price e = ground arith

  -- An investor who is told that a positive number of tokens can be bought holds the price of all of them.
  pub investor_funded :
      (wallet : Address) (offer : Offer) (tokens : ℕ) (check : WalletFundingCheck)
      → check_investor_can_fund_investment wallet offer (pos tokens) ≡ ok check
      → (price : ℕ) × (read_sale_price_per_token_wei offer ≡ ok price)
        × (0 < price)
        × (read_native_balance_wei wallet ≡ ok check.balance_wei)
        × ((check.funded ≡ true) ↔ (price * tokens ≤ check.balance_wei))
        × (check.shortfall_wei ≡ price * tokens - check.balance_wei)
  unfolding check_investor_can_fund_investment total_price
  investor_funded wallet offer tokens check e =
      elim (Result-cases (read_sale_price_per_token_wei offer)) [
        | inr (x, f) ↦ ground (arith, e, f)
        | inl (p, f) ↦
            let (required, balance, iff, short) =
              check_wallet_covers_required_wei_lem wallet (p * tokens) check
                (ground (arith, e, f)) in
            (p, f, sale_price_positive offer p f, balance, iff, short)
      ]
