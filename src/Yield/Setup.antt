-- ===== src/Yield/Setup.antt =====
-- Registering a property and its rent with the contract: `validate_monthly_rent_for_chain`,
-- `require_property_token`, `ensure_rent_property_registered`, `sync_rent_amount_to_contract`,
-- `sync_rent_chain_for_new_property`, `register_investor_for_property_yield` and
-- `repair_investor_yield_index_for_wallet` of backend/api/_helpers.py, and
-- `_ensure_rent_chain_ready_for_payment` of backend/api/routers/rent.py.
use web3_real_estate.Base.{
  ℕ, suc, zero, Bool, true, false, ◌&&◌, ◌||◌, not, ltb, eqb, truthy, if◌then◌else◌, Option, none,
  some, get_or, is_some, List, [], ◌∷◌, ◌++◌, nat_eq, Result, ok, err,
}
use web3_real_estate.Base.Keyed.{find}
use web3_real_estate.Indexer.Rows.{Address, PropertyRow, OwnershipRow, WalletRow, DistributionRow}
use web3_real_estate.Indexer.Chain.{Chain}
use web3_real_estate.Indexer.Payouts.{
  wallet_of, erc20_balance, backfill_investor_payout_rows_for_distribution,
}
use web3_real_estate.RentContract
use web3_real_estate.RentContract.{Contract, PropertyInfo, max_rent}
use web3_real_estate.Yield.{Rpc, World, get_rent_property_info, send, is_active}
use web3_real_estate.Yield.Backfill.{mem, seen, distributions_of, backfill_missed_rent_accruals}
use web3_real_estate.Yield.Investors.{sync_investors_to_contract}

-- What the calls raise, by their messages.
pub data SetupError : Type 0 where
  rent_exceeds_limit no_token no_security_token deployer_mismatch : SetupError
  reverted_too_high reverted call_failed : SetupError

-- `"rent amount too high" in str(exc).lower()`: the contract's own words, which the message of
-- `validate_monthly_rent_for_chain` does not have.
unfoldable pub says_too_high : SetupError → Bool
says_too_high SetupError.reverted_too_high = true
says_too_high _ = false

unfoldable pub validate_monthly_rent_for_chain : ℕ → Option SetupError
validate_monthly_rent_for_chain rent =
    if ltb max_rent rent then some SetupError.rent_exceeds_limit else none

unfoldable pub no_info : PropertyInfo
no_info = record { token_contract = 0; monthly_rent_wei = 0; active = false }

-- `is_security_token` stands for the two calls of `is_investable_token_contract`, `mismatch` for
-- `platform_deployer_mismatch`.
module _ (c : Chain) (rpc : Rpc) (is_security_token : Address → Bool) (mismatch : Bool) where
  unfoldable pub require_property_token : PropertyRow → Option SetupError
  require_property_token row = elim row.token_address [
    | none ↦ some SetupError.no_token
    | some token ↦ if is_security_token token then none else some SetupError.no_security_token
  ]

  -- `register_property_for_rent` and `set_monthly_rent` of the services
  unfoldable pub register_property_for_rent : ℕ → Address → World → Result SetupError World
  register_property_for_rent p token w =
      elim (send rpc p (RentContract.register_property p token) w) [
        | none ↦ err SetupError.reverted
        | some w' ↦ ok w'
      ]

  unfoldable pub set_monthly_rent : ℕ → ℕ → World → Result SetupError World
  set_monthly_rent p rent w = elim (send rpc p (RentContract.set_monthly_rent p rent) w) [
    | some w' ↦ ok w'
    | none ↦ err (
        if rpc.sends p && ((w.contract.properties p).active && ltb max_rent rent)
        then SetupError.reverted_too_high
        else SetupError.reverted)
  ]

  unfoldable pub ensure_rent_property_registered : PropertyRow → ℕ → World → Result SetupError World
  ensure_rent_property_registered row p w =
      if mismatch
      then err SetupError.deployer_mismatch
      else if is_active (get_rent_property_info rpc p w)
      then ok w
      else elim row.token_address [
        | none ↦ err SetupError.no_token
        | some token ↦ register_property_for_rent p token w
      ]

  -- The answer after a revert for too high a rent: the rent that the contract has, if there is one.
  unfoldable pub settle_for_chain_rent : ℕ → World → SetupError → Result SetupError (ℕ × World)
  settle_for_chain_rent p w e =
      if says_too_high e
      then elim (get_rent_property_info rpc p w) [
        | none ↦ err SetupError.call_failed
        | some info ↦
            if info.active && truthy info.monthly_rent_wei
            then ok (info.monthly_rent_wei, w)
            else err SetupError.rent_exceeds_limit
      ]
      else err e

  unfoldable pub write_rent : ℕ → ℕ → ℕ → World → Result SetupError (ℕ × World)
  write_rent p rent onchain_rent w =
      if eqb onchain_rent rent then ok (rent, w) else elim (set_monthly_rent p rent w) [
        | ok w' ↦ ok (rent, w')
        | err e ↦ settle_for_chain_rent p w e
      ]

  -- A raised error leaves the world that an earlier transaction has made, which nothing here reads.
  unfoldable pub sync_rent_amount_to_contract :
      PropertyRow → ℕ → World → Result SetupError (ℕ × World)
  sync_rent_amount_to_contract row p w =
      let rent = get_or row.monthly_rent_wei 0 in
      if eqb rent 0 then ok (0, w) else elim (validate_monthly_rent_for_chain rent) [
        | some e ↦ err e
        | none ↦
            let info = get_or (get_rent_property_info rpc p w) no_info in
            if info.active
            then write_rent p rent info.monthly_rent_wei w
            else elim (require_property_token row) [
              | some e ↦ err e
              | none ↦ elim (ensure_rent_property_registered row p w) [
                | err e ↦ err e
                | ok w' ↦ write_rent p rent 0 w'
              ]
            ]
      ]

  -- The same for a new property, with an early answer and a second read after the registration.
  unfoldable pub sync_rent_chain_for_new_property :
      PropertyRow → ℕ → World → Result SetupError (ℕ × World)
  sync_rent_chain_for_new_property row p w =
      let rent = get_or row.monthly_rent_wei 0 in
      if eqb rent 0 then ok (0, w) else elim (validate_monthly_rent_for_chain rent) [
        | some e ↦ err e
        | none ↦
            let info = get_or (get_rent_property_info rpc p w) no_info in
            if info.active
            then write_rent p rent info.monthly_rent_wei w
            else elim (require_property_token row) [
              | some e ↦ err e
              | none ↦ elim (ensure_rent_property_registered row p w) [
                | err e ↦ err e
                | ok w' ↦
                    write_rent p rent
                      (get_or (get_rent_property_info rpc p w')
                        (record no_info { active = true })).monthly_rent_wei
                      w'
              ]
            ]
      ]

  -- The last lines of `_ensure_rent_chain_ready_for_payment`; the answer is the number of investors
  -- that were added.
  unfoldable pub synced_investors : ℕ → World → Result SetupError (ℕ × World)
  synced_investors p w =
      let (added, w') = sync_investors_to_contract c rpc p w in
      elim added as (λ _. Result SetupError (ℕ × World)) [
        | none ↦ err SetupError.reverted
        | some ws ↦ ok (RentContract.count ws, w')
      ]

  -- The handler of an exception in `_ensure_rent_chain_ready_for_payment`.
  unfoldable pub keep_chain_rent : ℕ → World → SetupError → Result SetupError (ℕ × World)
  keep_chain_rent p w e =
      if says_too_high e
      then elim (get_rent_property_info rpc p w) [
        | none ↦ err SetupError.call_failed
        | some info ↦
            if info.active && truthy info.monthly_rent_wei then synced_investors p w else err e
      ]
      else err e

  unfoldable pub ensure_rent_chain_ready_for_payment :
      PropertyRow → ℕ → World → Result SetupError (ℕ × World)
  ensure_rent_chain_ready_for_payment row p w = elim (ensure_rent_property_registered row p w) [
    | err e ↦ err e
    | ok w' ↦ elim (sync_rent_amount_to_contract row p w') [
      | err e ↦ keep_chain_rent p w' e
      | ok (rent, w'') ↦ synced_investors p w''
    ]
  ]

  -- `add_investor_to_rent` for a buyer that the contract does not have yet; a failure is logged.
  unfoldable pub add_buyer : ℕ → Address → Address → List Address → World → List Address × World
  add_buyer p token wallet synced w =
      if eqb (erc20_balance c token wallet) 0
        || not (is_active (get_rent_property_info rpc p w))
        || w.contract.is_investor p wallet
      then (synced, w)
      else elim (send rpc p (RentContract.add_investor p wallet) w) [
        | none ↦ (synced, w)
        | some w' ↦ (synced ++ wallet ∷ [], w')
      ]

  -- `register_investor_for_property_yield`; none where the sync raises.
  unfoldable pub register_investor_for_property_yield :
      ℕ → Address → World → Option (List Address) × World
  register_investor_for_property_yield p wallet w =
      elim (find (λ (r : PropertyRow). r.id) p w.store.properties) [
        | none ↦ (some [], w)
        | some row ↦ elim row.token_address [
          | none ↦ (some [], w)
          | some token ↦
              let w' =
                if eqb (get_or row.monthly_rent_wei 0) 0
                then w
                else elim (ensure_rent_property_registered row p w) [ err _ ↦ w | ok u ↦ u ] in
              let (synced, w'') = sync_investors_to_contract c rpc p w' in
              elim synced as (λ _. Option (List Address) × World) [
                | none ↦ (none, w'')
                | some ws ↦ let (all, last) = add_buyer p token wallet ws w'' in (some all, last)
              ]
        ]
      ]

  -- `SELECT DISTINCT t.property_id` of the wallet's holdings
  unfoldable pub held_properties : Address → List WalletRow → List OwnershipRow → List ℕ
  held_properties wallet users [] = []
  held_properties wallet users (r ∷ rs) =
      let rest = held_properties wallet users rs in
      if truthy r.token_amount
        && eqb (get_or (wallet_of r.user_id users) 0) wallet
        && is_some (wallet_of r.user_id users)
        && not (mem r.property_id rest)
      then r.property_id ∷ rest
      else rest

  -- `LIMIT n`
  unfoldable pub first_distributions : ℕ → List DistributionRow → List DistributionRow
  first_distributions zero ds = []
  first_distributions n [] = []
  first_distributions (suc n) (d ∷ ds) = d ∷ first_distributions n ds

  unfoldable pub newest_first : List DistributionRow → List DistributionRow → List DistributionRow
  newest_first [] done = done
  newest_first (d ∷ ds) done = newest_first ds (d ∷ done)

  unfoldable pub index_payouts : ℕ → List DistributionRow → World → World
  index_payouts p [] w = w
  index_payouts p (d ∷ ds) w = index_payouts p ds (
      if eqb d.total_rent_collected 0 then w else record w {
        store =
            (backfill_investor_payout_rows_for_distribution (seen c rpc w.contract) p d.id
              d.total_rent_collected d.distribution_tx_hash d.distributed_at w.store).1;
      })

  -- One property of `repair_investor_yield_index_for_wallet`; an exception ends its turn.
  unfoldable pub repair_property : Address → ℕ → World → World
  repair_property wallet p w =
      let (synced, w') = sync_investors_to_contract c rpc p w in
      elim synced as (λ _. World) [
        | none ↦ w'
        | some _ ↦
            let recent =
              first_distributions 5 (newest_first (distributions_of p w'.store.distributions) []) in
            (backfill_missed_rent_accruals c rpc p (wallet ∷ []) (index_payouts p recent w')).1
      ]

  unfoldable pub repair_properties : Address → List ℕ → World → World
  repair_properties wallet [] w = w
  repair_properties wallet (p ∷ ps) w = repair_properties wallet ps (repair_property wallet p w)

  unfoldable pub repair_investor_yield_index_for_wallet : Address → World → World
  repair_investor_yield_index_for_wallet wallet w =
      repair_properties wallet (held_properties wallet w.store.users w.store.ownerships) w
