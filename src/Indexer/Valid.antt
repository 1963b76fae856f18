-- ===== src/Indexer/Valid.antt =====
-- The unique constraints of the tables that `reconcile_transaction` writes.
use web3_real_estate.Base.{ℕ, ◌+◌, ◌≡◌, refl, none, List, [], ◌∷◌, arith, nat_eq, pair_eq}
use web3_real_estate.Base.Int.{add_clamped}
use web3_real_estate.Base.Keyed.{
  find, upsert, IsUnique, upsert-IsUnique, IsBelow, IsBelow-upsert, upsert-IsUnique_id,
}
use web3_real_estate.Base.Keeps.{After}
use web3_real_estate.Indexer.Rows.{
  Store, TxHash, Address, RentPaymentRow, DistributionRow, TransactionRow, WalletRow, InvestmentRow,
  PayoutRow, event_key, ownership_key, payout_key,
}
use web3_real_estate.Indexer.Chain.{Chain}
use web3_real_estate.Indexer.Writes.{
  record_event, upsert_transaction, get_or_create_user_id, get_or_create_tenant_id,
  update_ownership, set_ownership, upsert_investment_row,
}
use web3_real_estate.Indexer.Payouts.{insert_payout}
use web3_real_estate.Indexer.RentHandlers.{
  payment_key, distribution_key, upsert_rent_payment, open_rental, upsert_distribution,
  mark_payouts, mark_claimed, mark_all,
}
use web3_real_estate.Indexer.Reconcile.{reconcile_transaction}
use web3_real_estate.Indexer.Stable.{Stable}
use web3_real_estate.Indexer.Stable.Whole.{reconcile_Stable}

abbrev pub wallet_key : WalletRow → Address
wallet_key r = r.wallet_address

abbrev pub wallet_id : WalletRow → ℕ
wallet_id r = r.id

abbrev pub transaction_key : TransactionRow → TxHash
transaction_key r = r.tx_hash

abbrev pub investment_key : InvestmentRow → TxHash
investment_key r = r.deposit_tx_hash

-- A table of wallets: no wallet and no id twice, and the next id is new.
pub record IsDirectory (rows : List WalletRow) (next : ℕ) : Type 0 where
  pub wallets : IsUnique wallet_key rows
  pub ids : IsUnique wallet_id rows
  pub below : IsBelow wallet_key wallet_id next rows

pub record IsValid (s : Store) : Type 0 where
  pub events : IsUnique event_key s.events
  pub transactions : IsUnique transaction_key s.transactions
  pub users : IsDirectory s.users s.next_user
  pub tenants : IsDirectory s.tenants s.next_tenant
  pub ownerships : IsUnique ownership_key s.ownerships
  pub investments : IsUnique investment_key s.investments
  pub payments : IsUnique payment_key s.rent_payments
  pub distributions : IsUnique distribution_key s.distributions
  pub payouts : IsUnique payout_key s.payouts

register-IsDirectory :
    (w : Address) (rows : List WalletRow) (next : ℕ)
    → find wallet_key w rows ≡ none
    → IsDirectory rows next
    → IsDirectory
        (upsert wallet_key (λ old. old) (record { id = next; wallet_address = w }) rows)
        (next + 1)
register-IsDirectory w rows next new d = record {
  wallets = upsert-IsUnique wallet_key (λ old. old) _ rows (λ x. refl) d.wallets;
  ids = upsert-IsUnique_id wallet_key wallet_id (λ old. old) _ rows new d.below d.ids;
  below = IsBelow-upsert wallet_key wallet_id (λ old. old) _ next rows (λ x. refl) refl d.below;
}

user-IsValid : (w : Address) (s : Store) → IsValid s → IsValid (get_or_create_user_id w s).1
unfolding get_or_create_user_id
user-IsValid w s v = ground (arith, register-IsDirectory w s.users s.next_user)

tenant-IsValid : (w : Address) (s : Store) → IsValid s → IsValid (get_or_create_tenant_id w s).1
unfolding get_or_create_tenant_id
tenant-IsValid w s v = ground (arith, register-IsDirectory w s.tenants s.next_tenant)

find-mark_all :
    (p w h t : ℕ) (k : ℕ × ℕ) (rows : List PayoutRow)
    → find payout_key k rows ≡ none
    → find payout_key k (mark_all p w h t rows).1 ≡ none
unfolding find mark_all mark_claimed
find-mark_all p w h t k [] e = refl
find-mark_all p w h t k (row ∷ rows) e = ground (arith, find-mark_all p w h t k rows)

marks-IsUnique :
    (p w h t : ℕ) (rows : List PayoutRow)
    → IsUnique payout_key rows
    → IsUnique payout_key (mark_all p w h t rows).1
unfolding mark_all mark_claimed
marks-IsUnique p w h t [] u = tt
marks-IsUnique p w h t (row ∷ rows) u =
    ground (arith, marks-IsUnique p w h t rows, find-mark_all p w h t (payout_key row) rows)

payment-IsValid :
    (row : RentPaymentRow) (s : Store) → IsValid s → After IsValid (upsert_rent_payment row s)
unfolding upsert_rent_payment
payment-IsValid row s v =
    let unique =
      upsert-IsUnique payment_key (λ old. record row { id = old.id; tx_hash = old.tx_hash }) row
        s.rent_payments (λ x. refl) v.payments in
    ground (arith, unique)

distribution-IsValid :
    (row : DistributionRow) (s : Store) → IsValid s → After IsValid (upsert_distribution row s)
unfolding upsert_distribution
distribution-IsValid row s v =
    let unique =
      upsert-IsUnique distribution_key
        (λ old. record row {
          id = old.id;
          property_id = old.property_id;
          distribution_tx_hash = old.distribution_tx_hash;
        })
        row s.distributions (λ x. refl) v.distributions in
    ground (arith, unique)

upsert_investment_row-IsUnique :
    (p w a e h t : ℕ) (s : Store)
    → IsUnique investment_key s.investments
    → IsUnique investment_key (upsert_investment_row p w a e h t s).investments
unfolding upsert_investment_row
upsert_investment_row-IsUnique p w a e h t s u =
    upsert-IsUnique investment_key _ _ s.investments (λ x. refl) u

pub IsValid-Stable : Stable IsValid
unfolding record_event upsert_transaction update_ownership set_ownership upsert_investment_row
    open_rental insert_payout mark_payouts
IsValid-Stable = record {
  event = λ h i b a name s v. ground (
    arith,
    upsert-IsUnique event_key (λ old. old)
        (record {
          tx_hash = h;
          log_index = i;
          block_number = b;
          contract_address = a;
          event_name = name;
        })
        s.events (λ x. refl),
  );
  transaction = λ row s v. ground (
    arith,
    upsert-IsUnique transaction_key (λ old. record row { tx_hash = old.tx_hash }) row s.transactions
        (λ x. refl),
  );
  user = user-IsValid;
  tenant = tenant-IsValid;
  delta = λ u p d s v. ground (
    arith,
    upsert-IsUnique ownership_key
        (λ old. record old { token_amount = add_clamped old.token_amount d })
        (record { user_id = u; property_id = p; token_amount = add_clamped 0 d }) s.ownerships
        (λ x. refl),
  );
  balance = λ u p b s v. ground (
    arith,
    upsert-IsUnique ownership_key (λ old. record old { token_amount = b })
        (record { user_id = u; property_id = p; token_amount = b }) s.ownerships (λ x. refl),
  );
  investment =
      λ p w a e h t s v. ground (arith, upsert_investment_row-IsUnique p w a e h t s v.investments);
  payment = payment-IsValid;
  rental = λ t row d a s v. ground arith;
  distribution = distribution-IsValid;
  payout =
      λ row s v. ground (arith, upsert-IsUnique payout_key (λ old. old) row s.payouts (λ x. refl));
  marks =
      λ c tx r row e t s v. ground (arith, marks-IsUnique row.id e.investor tx.hash t s.payouts);
}

-- Whatever transaction is reconciled, whether it succeeds or raises, and from whichever valid
-- database: no log index of an event, transaction hash, wallet or id of a user or tenant, holder of a
-- property, deposit, payment or distribution hash, and no investor of a distribution is stored twice
-- afterwards, and the next user and tenant ids are still unused.
reconcile_transaction-IsValid :
    (c : Chain) (tx_hash : TxHash) (s : Store)
    → IsValid s
    → IsValid (reconcile_transaction c tx_hash s).1
reconcile_transaction-IsValid = reconcile_Stable IsValid-Stable
