-- ===== src/Indexer/Payouts.antt =====
-- The rent shares of a property's investors and the payout rows written from them:
-- `_claim_status_for_investor_payout`, `build_rent_distribution_preview_from_db`,
-- `get_rent_distribution_breakdown` and `backfill_investor_payout_rows_for_distribution`.
pub mod Bounds
use web3_real_estate.Base.{
  ℕ, ◌+◌, ◌*◌, ◌/◌, Option, none, some, List, [], ◌∷◌, Bool, true, false, ◌&&◌, ◌||◌, eqb, ltb, leb,
  truthy, get_or, if◌then◌else◌, nat_eq, pair_eq,
}
use web3_real_estate.Base.Keyed.{find, upsert}
use web3_real_estate.Indexer.Rows.{
  Address, TxHash, TxType, rewards_claimed, PropertyRow, TransactionRow, WalletRow, OwnershipRow,
  Percentage, ClaimStatus, claimable, claimed, PayoutRow, Store, payout_key,
}
use web3_real_estate.Indexer.Chain.{Chain, ChainShare}

-- One entry of a breakdown. The ether text of `payout_wei` is not kept.
pub record Share : Type 0 where
  pub investor : Address
  pub payout_wei : ℕ
  pub ownership_bps : ℕ
  pub ownership_pct : Percentage

unfoldable pub is_claim_tx : TxType → Bool
is_claim_tx rewards_claimed = true
is_claim_tx _ = false

-- The WHERE clause of the claim query.
unfoldable pub claims_after : ℕ → Address → ℕ → TransactionRow → Bool
claims_after property_id wallet since row =
    is_claim_tx row.tx_type
    && eqb row.property_id property_id
    && eqb row.wallet_address wallet
    && leb since row.timestamp

unfoldable pub earlier : TransactionRow → Option TransactionRow → TransactionRow
earlier row none = row
earlier row (some best) = if leb row.timestamp best.timestamp then row else best

-- `ORDER BY timestamp ASC LIMIT 1` over the rows that the clause keeps.
unfoldable pub first_claim : ℕ → Address → ℕ → List TransactionRow → Option TransactionRow
first_claim property_id wallet since [] = none
first_claim property_id wallet since (row ∷ rows) =
    let rest = first_claim property_id wallet since rows in
    if claims_after property_id wallet since row then some (earlier row rest) else rest

-- `_claim_status_for_investor_payout`
unfoldable pub claim_status : ℕ → Address → ℕ → Store → ClaimStatus
claim_status property_id wallet distributed_at s =
    elim (first_claim property_id wallet distributed_at s.transactions) [
      | none ↦ claimable
      | some row ↦ claimed row.tx_hash row.timestamp
    ]

-- A holder as the query joins it: wallet_address and token_amount.
pub record Holder : Type 0 where
  pub wallet_address : Address
  pub token_amount : ℕ

unfoldable pub wallet_of : ℕ → List WalletRow → Option Address
wallet_of user_id [] = none
wallet_of user_id (row ∷ rows) =
    if eqb row.id user_id then some row.wallet_address else wallet_of user_id rows

-- `ORDER BY token_amount DESC, wallet_address ASC`
unfoldable pub before : Holder → Holder → Bool
before a b =
    ltb b.token_amount a.token_amount
    || eqb a.token_amount b.token_amount && leb a.wallet_address b.wallet_address

unfoldable pub insert_holder : Holder → List Holder → List Holder
insert_holder h [] = h ∷ []
insert_holder h (x ∷ xs) = if before h x then h ∷ x ∷ xs else x ∷ insert_holder h xs

unfoldable pub add_holder : ℕ → List WalletRow → OwnershipRow → List Holder → List Holder
add_holder property_id users row rest =
    if eqb row.property_id property_id && truthy row.token_amount
    then elim (wallet_of row.user_id users) [
      | none ↦ rest
      | some wallet ↦
          insert_holder (record { wallet_address = wallet; token_amount = row.token_amount }) rest
    ]
    else rest

unfoldable pub holders : ℕ → List WalletRow → List OwnershipRow → List Holder
holders property_id users [] = []
holders property_id users (row ∷ rows) =
    add_holder property_id users row (holders property_id users rows)

-- `get_erc20_balance`: zero where there is no contract or the call raises.
unfoldable pub erc20_balance : Chain → Address → Address → ℕ
erc20_balance c token wallet =
    if c.is_contract token then get_or (c.balance_of token wallet) 0 else 0

unfoldable pub share : ℕ → ℕ → Address → ℕ → Share
share rent_wei total wallet balance =
    let payout = (rent_wei * balance) / total in
    record {
      investor = wallet;
      payout_wei = payout;
      ownership_bps = (balance * 10000) / total;
      ownership_pct = record { numerator = payout * 100; denominator = rent_wei };
    }

-- A balance or a payout of zero gives no entry. Both loops of the preview have this body.
unfoldable pub shares : ℕ → ℕ → List Holder → List Share
shares rent_wei total [] = []
shares rent_wei total (h ∷ hs) =
    let rest = shares rent_wei total hs in
    if eqb h.token_amount 0
    then rest
    else if eqb ((rent_wei * h.token_amount) / total) 0
    then rest
    else share rent_wei total h.wallet_address h.token_amount ∷ rest

unfoldable pub with_chain_balance : Chain → Address → List Holder → List Holder
unfolding erc20_balance
with_chain_balance c token [] = []
with_chain_balance c token (h ∷ hs) =
    record {
      wallet_address = h.wallet_address;
      token_amount = erc20_balance c token h.wallet_address;
    }
    ∷ with_chain_balance c token hs

unfoldable pub total_minted : List Holder → ℕ
total_minted [] = 0
total_minted (h ∷ hs) = h.token_amount + total_minted hs

unfoldable pub db_shares : ℕ → List Holder → List Share
db_shares rent_wei hs = if eqb (total_minted hs) 0 then [] else shares rent_wei (total_minted hs) hs

unfoldable pub or_else : List Share → List Share → List Share
or_else [] other = other
or_else (x ∷ xs) other = x ∷ xs

unfoldable pub token_of : ℕ → List PropertyRow → Option Address
token_of property_id rows = elim (find (λ (r : PropertyRow). r.id) property_id rows) [
  | none ↦ none
  | some row ↦ row.token_address
]

-- The shares by chain balances, if the token can be read and has a supply; else the database's.
unfoldable pub chain_shares : Chain → ℕ → Option Address → List Holder → List Share
chain_shares c rent_wei none hs = []
chain_shares c rent_wei (some token) hs = elim (c.total_supply token) [
  | none ↦ []
  | some supply ↦
      if truthy supply then shares rent_wei supply (with_chain_balance c token hs) else []
]

unfoldable pub build_rent_distribution_preview_from_db : Chain → ℕ → ℕ → Store → List Share
build_rent_distribution_preview_from_db c property_id rent_wei s =
    let rows = holders property_id s.users s.ownerships in
    or_else (chain_shares c rent_wei (token_of property_id s.properties) rows)
      (db_shares rent_wei rows)

-- `calculate_rent_distribution` keeps the positive payouts.
unfoldable pub positive_shares : ℕ → List ChainShare → List Share
positive_shares rent_wei [] = []
positive_shares rent_wei (x ∷ xs) =
    let rest = positive_shares rent_wei xs in
    if truthy x.payout
    then record {
      investor = x.investor;
      payout_wei = x.payout;
      ownership_bps = x.bps;
      ownership_pct = record { numerator = x.payout * 100; denominator = rent_wei };
    }
      ∷ rest
    else rest

unfoldable pub get_rent_distribution_breakdown : Chain → ℕ → ℕ → Store → List Share
get_rent_distribution_breakdown c property_id rent_wei s =
    if eqb rent_wei 0
    then []
    else or_else
        (elim (c.calculate_distribution property_id rent_wei) [
          | none ↦ []
          | some entries ↦ positive_shares rent_wei entries
        ])
        (build_rent_distribution_preview_from_db c property_id rent_wei s)

-- `ON CONFLICT (distribution_id, investor_wallet) DO NOTHING`, and the number of rows written.
unfoldable pub insert_payout : PayoutRow → Store → ℕ × Store
insert_payout row s = elim (find payout_key (payout_key row) s.payouts) [
  | some _ ↦ (0, s)
  | none ↦ (1, record s { payouts = upsert payout_key (λ old. old) row s.payouts })
]

module _ (property_id distribution_id rent_wei : ℕ) (tx_hash : TxHash) (distributed_at : ℕ) where
  unfoldable pub payout_row : Share → ClaimStatus → PayoutRow
  payout_row x claim = record {
    distribution_id = distribution_id;
    investor_wallet = x.investor;
    property_id = property_id;
    ownership_percentage =
        if eqb x.ownership_pct.numerator 0
        then record { numerator = x.payout_wei * 100; denominator = rent_wei }
        else x.ownership_pct;
    payout_amount_wei = x.payout_wei;
    tx_hash = tx_hash;
    distributed_at = distributed_at;
    claim = claim;
  }

  -- One round of the loop: an entry of zero, or one that has its row already, writes nothing.
  unfoldable pub backfill_share : Share → Store → ℕ × Store
  backfill_share x s =
      if eqb x.payout_wei 0
      then (0, s)
      else elim (find payout_key (distribution_id, x.investor) s.payouts) [
        | some _ ↦ (0, s)
        | none ↦
            insert_payout (payout_row x (claim_status property_id x.investor distributed_at s)) s
      ]

  unfoldable pub backfill_shares : List Share → Store → ℕ × Store
  backfill_shares [] s = (0, s)
  backfill_shares (x ∷ xs) s =
      let (n, s') = backfill_share x s in let (m, s'') = backfill_shares xs s' in (n + m, s'')

-- The number of rows written, and the store with them.
unfoldable pub backfill_investor_payout_rows_for_distribution :
    Chain → ℕ → ℕ → ℕ → TxHash → ℕ → Store → ℕ × Store
backfill_investor_payout_rows_for_distribution c property_id distribution_id rent_wei tx_hash
      distributed_at s =
    if eqb rent_wei 0
    then (0, s)
    else backfill_shares property_id distribution_id rent_wei tx_hash distributed_at
        (get_rent_distribution_breakdown c property_id rent_wei s) s
