-- ===== src/RentContract.antt =====
-- The contract that takes the rents and owes the shares: contracts/RentDistribution.sol. A call
-- that reverts answers none. The tokens are read through the chain.
use web3_real_estate.Base.{
  ℕ, zero, suc, ◌+◌, ◌-◌, ◌*◌, ◌/◌, ◌%◌, ◌^◌, Bool, true, false, ◌&&◌, ◌||◌, not, leb, ltb, eqb,
  if◌then◌else◌, Option, none, some, List, [], ◌∷◌, ◌++◌, truthy, nat_eq, pair_eq, get_or, is_some,
}
use web3_real_estate.Base.Ledger.{Ledger, amount_of, put}
use web3_real_estate.Indexer.Rows.{Address, zero_address}
use web3_real_estate.Indexer.Chain.{Chain, ChainShare}
pub mod Split
pub mod Sound
pub mod Rents
pub mod Claims
pub mod Reach

abbrev pub word : ℕ
word = 2 ^ 256

-- `PropertyInfo`; a property that was never registered has the zero values.
pub record PropertyInfo : Type 0 where
  pub token_contract : Address
  pub monthly_rent_wei : ℕ
  pub active : Bool

-- The storage, with the ether that the contract holds. The contract is not paused by its default.
pub record Contract : Type 0 where
  pub properties : ℕ → PropertyInfo
  pub investors : ℕ → List Address
  pub is_investor : ℕ → Address → Bool
  pub claimable_rewards : Ledger ℕ
  pub property_claimable_rewards : Ledger (ℕ × ℕ)
  pub total_claimed_rewards : Ledger ℕ
  pub property_claimed_rewards : Ledger (ℕ × ℕ)
  pub total_rent_collected : ℕ
  pub total_rent_distributed : ℕ
  pub balance : ℕ
  pub paused : Bool

-- `require`
abbrev pub require {ℓ} : {A : Type ℓ} → Bool → Option A → Option A
require true next = next
require false next = none

-- A sum in checked arithmetic, and what is done with it.
abbrev pub add_then : {A : Type 0} → ℕ → ℕ → (ℕ → Option A) → Option A
add_then a b next = require (ltb (a + b) word) (next (a + b))

abbrev pub set_at : {A : Type 0} → ℕ → A → (ℕ → A) → ℕ → A
set_at k v f i = if eqb i k then v else f i

unfoldable pub count : List Address → ℕ
count [] = 0
count (x ∷ xs) = 1 + count xs

unfoldable pub register_property : ℕ → Address → Contract → Option Contract
register_property property_id token s = require (not (eqb token zero_address)) (
    require (not (s.properties property_id).active) (
      require (truthy property_id) (
        some (record s {
          properties =
              set_at property_id
                (record { token_contract = token; monthly_rent_wei = 0; active = true })
                s.properties;
        }))))

-- `100 ether`
abbrev pub max_rent : ℕ
max_rent = 100 * 10 ^ 18

unfoldable pub set_monthly_rent : ℕ → ℕ → Contract → Option Contract
set_monthly_rent property_id rent s = require (s.properties property_id).active (
    require (truthy rent) (
      require (leb rent max_rent) (
        some (record s {
          properties =
              set_at property_id (record (s.properties property_id) { monthly_rent_wei = rent })
                s.properties;
        }))))

-- An investor joins the list once; the zero address is passed over.
unfoldable pub push_investor : ℕ → Address → Contract → Contract
push_investor property_id wallet s = if s.is_investor property_id wallet then s else record s {
  investors = set_at property_id (s.investors property_id ++ wallet ∷ []) s.investors;
  is_investor = set_at property_id (set_at wallet true (s.is_investor property_id)) s.is_investor;
}

unfoldable pub add_investor : ℕ → Address → Contract → Option Contract
add_investor property_id wallet s = require (s.properties property_id).active (
    require (not (eqb wallet zero_address)) (
      require (ltb (count (s.investors property_id)) 1000)
        (some (push_investor property_id wallet s))))

-- The loop of `addInvestors`
unfoldable pub push_investors : ℕ → List Address → Contract → Contract
push_investors property_id [] s = s
push_investors property_id (w ∷ ws) s =
    push_investors property_id ws (if eqb w zero_address then s else push_investor property_id w s)

unfoldable pub add_investors : ℕ → List Address → Contract → Option Contract
add_investors property_id ws s = require (s.properties property_id).active (
    require (truthy (count ws)) (
      require (leb (count (s.investors property_id) + count ws) 1000)
        (some (push_investors property_id ws s))))

-- `claimableRewards[investor] += amount` and the same for the property
unfoldable pub credit : ℕ → Address → ℕ → Contract → Option Contract
credit property_id wallet amount s = add_then (amount_of wallet s.claimable_rewards) amount λ all.
    add_then (amount_of (property_id, wallet) s.property_claimable_rewards) amount λ own.
      some (record s {
        claimable_rewards = put wallet all s.claimable_rewards;
        property_claimable_rewards = put (property_id, wallet) own s.property_claimable_rewards;
      })

unfoldable pub accrue_investor_rewards : ℕ → Address → ℕ → Contract → Option Contract
accrue_investor_rewards property_id wallet amount s = require (s.properties property_id).active (
    require (not (eqb wallet zero_address)) (
      require (truthy amount)
        (require (s.is_investor property_id wallet) (credit property_id wallet amount s))))

-- One entry of the arrays `payouts` and `ownershipBps`.
pub record Payout : Type 0 where
  pub investor : Address
  pub amount : ℕ
  pub bps : ℕ

-- The multiplications are unchecked; a balance of zero leaves the zeros of a new array.
unfoldable pub payout : ℕ → ℕ → Address → ℕ → Payout
payout rent supply wallet balance = record {
  investor = wallet;
  amount = (rent * balance % word) / supply;
  bps = (balance * 10000 % word) / supply;
}

module _ (c : Chain) (token : Address) (rent supply : ℕ) where
  -- The first loop of `payRent`
  unfoldable pub payouts : List Address → List Payout
  payouts [] = []
  payouts (w ∷ ws) = payout rent supply w (get_or (c.balance_of token w) 0) ∷ payouts ws

  unfoldable pub paid_count : List Address → ℕ
  paid_count [] = 0
  paid_count (w ∷ ws) = (if truthy (get_or (c.balance_of token w) 0) then 1 else 0) + paid_count ws

-- The unchecked sum of the payouts
unfoldable pub distributed : List Payout → ℕ
distributed [] = 0
distributed (x ∷ xs) = (x.amount + distributed xs) % word

-- The second loop of `payRent`
unfoldable pub credit_all : ℕ → List Payout → Contract → Option Contract
credit_all property_id [] s = some s
credit_all property_id (x ∷ xs) s =
    if eqb x.amount 0
    then credit_all property_id xs s
    else elim (credit property_id x.investor x.amount s) [
      | none ↦ none
      | some s' ↦ credit_all property_id xs s'
    ]

-- The amounts in the events of a payment.
pub record Payment : Type 0 where
  pub rent_amount : ℕ
  pub paid : List Payout
  pub total_distributed : ℕ
  pub investor_count : ℕ
  pub refund : ℕ

-- Every balance can be read; `payRent` reverts where a token does not answer.
unfoldable pub all_read : Chain → Address → List Address → Bool
all_read c token [] = true
all_read c token (w ∷ ws) = is_some (c.balance_of token w) && all_read c token ws

-- What follows the requirements of `payRent`; the refund leaves the contract at the end.
unfoldable pub distribute : Chain → ℕ → ℕ → ℕ → ℕ → Contract → Option (Payment × Contract)
distribute c property_id value rent supply s =
    let token = (s.properties property_id).token_contract in
    let shares = payouts c token rent supply (s.investors property_id) in
    add_then s.total_rent_collected rent λ collected.
      elim (credit_all property_id shares
        (record s { total_rent_collected = collected; balance = s.balance + value })) [
          | none ↦ none
          | some s' ↦ add_then s'.total_rent_distributed (distributed shares) λ sum. some (
            record {
              rent_amount = rent;
              paid = shares;
              total_distributed = distributed shares;
              investor_count = paid_count c token rent supply (s.investors property_id);
              refund = value - rent;
            },
            record s' { total_rent_distributed = sum; balance = s'.balance - (value - rent) },
          )
        ]

-- `accepts` says whether the sender takes ether: `Address.sendValue` of a refund reverts if not.
unfoldable pub pay_rent : Chain → Bool → ℕ → ℕ → Contract → Option (Payment × Contract)
pay_rent c accepts property_id value s =
    let info = s.properties property_id in
    require (not s.paused) (
      require info.active (
        require (truthy info.monthly_rent_wei) (
          require (leb info.monthly_rent_wei value) (
            require (leb value (info.monthly_rent_wei * 2)) (
              require (truthy (count (s.investors property_id))) (
                require (leb (count (s.investors property_id)) 1000)
                  (elim (c.total_supply info.token_contract) [
                    | none ↦ none
                    | some supply ↦ require (truthy supply) (
                        require (all_read c info.token_contract (s.investors property_id)) (
                          require (accepts || leb value info.monthly_rent_wei)
                            (distribute c property_id value info.monthly_rent_wei supply s)))
                  ])))))))

-- `claimRewards`: the amount that is sent, and the storage after it. A subtraction below zero, a
-- payment beyond the balance and one that the sender does not accept revert.
unfoldable pub claim_rewards : Bool → ℕ → Address → Contract → Option (ℕ × Contract)
claim_rewards accepts property_id sender s =
    let amount = amount_of (property_id, sender) s.property_claimable_rewards in
    require (not s.paused) (
      require (s.properties property_id).active (
        require (truthy amount) (
          require (leb amount (amount_of sender s.claimable_rewards)) (
            add_then (amount_of (property_id, sender) s.property_claimed_rewards) amount λ own.
              add_then (amount_of sender s.total_claimed_rewards) amount λ all.
                require (leb amount s.balance && accepts) (
                  some (
                    amount,
                    record s {
                      property_claimable_rewards =
                          put (property_id, sender) 0 s.property_claimable_rewards;
                      claimable_rewards =
                          put sender (amount_of sender s.claimable_rewards - amount)
                            s.claimable_rewards;
                      property_claimed_rewards =
                          put (property_id, sender) own s.property_claimed_rewards;
                      total_claimed_rewards = put sender all s.total_claimed_rewards;
                      balance = s.balance - amount;
                    },
                  ))))))

-- The multiplications of `calculateDistribution` are checked.
unfoldable pub shares_of : Chain → Address → ℕ → ℕ → List Address → Option (List ChainShare)
shares_of c token rent supply [] = some []
shares_of c token rent supply (w ∷ ws) =
    let held = get_or (c.balance_of token w) 0 in
    elim (shares_of c token rent supply ws) [
      | none ↦ none
      | some rest ↦ require (ltb (held * 10000) word) (
          require (ltb (rent * held) word) (
            some (
              record {
                investor = w;
                payout = (rent * held) / supply;
                bps = (held * 10000) / supply;
              }
              ∷ rest)))
    ]

unfoldable pub calculate_distribution : Chain → Contract → ℕ → ℕ → Option (List ChainShare)
calculate_distribution c s property_id rent =
    let info = s.properties property_id in
    require info.active (
      require (truthy rent) (elim (c.total_supply info.token_contract) [
        | none ↦ none
        | some supply ↦ require (truthy supply) (
            require (all_read c info.token_contract (s.investors property_id))
              (shares_of c info.token_contract rent supply (s.investors property_id)))
      ]))
