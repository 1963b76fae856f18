-- ===== src/Indexer/Logs.antt =====
-- `_fetch_event_logs` and `_discover_transaction_hashes`: reading the logs of a window of blocks
-- from a provider that may refuse, and the transactions behind them.
pub mod Complete
use web3_real_estate.Base.{
  ℕ, zero, suc, ◌+◌, ◌-◌, ◌/◌, Option, none, some, List, [], ◌∷◌, ◌++◌, Bool, false, ◌&&◌, eqb, ltb,
  if◌then◌else◌, Result, ok, err,
}
use web3_real_estate.Indexer.Rows.{Address, TxHash, EventName, PropertyRow}

-- How the message of a refused query is classified.
pub record LogError : Type 0 where
  pub retryable : Bool
  pub splittable : Bool

-- `get_logs` of one event of one contract: the attempt, the first and the last block. A log is
-- kept as its transaction hash.
abbrev pub Query : Type 0
Query = ℕ → ℕ → ℕ → Result LogError (List TxHash)

-- `LOG_SCAN_RETRIES`
abbrev pub log_scan_retries : ℕ
log_scan_retries = 2

-- How the loop over the attempts ends.
pub data Scan : Type 0 where
  got : List TxHash → Scan
  split : Scan
  gave_up : Scan

unfoldable pub after_error : LogError → ℕ → ℕ → Scan → Scan
after_error e from to next =
    if e.retryable then next else if e.splittable && ltb from to then split else gave_up

-- The attempts left after this one, and the number of this one. On the last attempt a retryable
-- error is treated like any other.
unfoldable pub scan : Query → ℕ → ℕ → ℕ → ℕ → Scan
scan q zero attempt from to = elim (q attempt from to) [
  | ok logs ↦ got logs
  | err e ↦ after_error (record e { retryable = false }) from to gave_up
]
scan q (suc left) attempt from to =
    let next = scan q left (attempt + 1) from to in
    elim (q attempt from to) [ ok logs ↦ got logs | err e ↦ after_error e from to next ]

-- The fuel bounds how often the window is halved; its width is enough.
unfoldable pub fetch : ℕ → Query → ℕ → ℕ → List TxHash
fetch zero q from to = []
fetch (suc fuel) q from to =
    let mid = (from + to) / 2 in
    let halves = fetch fuel q from mid ++ fetch fuel q (mid + 1) to in
    let answer : List TxHash = elim (scan q log_scan_retries 0 from to) [
      | got logs ↦ logs
      | split ↦ halves
      | gave_up ↦ []
    ] in
    if ltb to from then [] else answer

unfoldable pub fetch_event_logs : Query → ℕ → ℕ → List TxHash
fetch_event_logs q from to = fetch (suc (to - from)) q from to

-- The provider, for each contract and event.
abbrev pub Provider : Type 0
Provider = Address → EventName → Query

-- A Python set of hashes, kept in the order in which `sorted` gives it.
unfoldable pub add_hash : TxHash → List TxHash → List TxHash
add_hash h [] = h ∷ []
add_hash h (x ∷ xs) = if ltb h x then h ∷ x ∷ xs else if eqb h x then x ∷ xs else x ∷ add_hash h xs

unfoldable pub add_hashes : List TxHash → List TxHash → List TxHash
add_hashes [] set = set
add_hashes (h ∷ hs) set = add_hash h (add_hashes hs set)

module _ (provider : Provider) (from to : ℕ) where
  unfoldable pub contract_hashes : Address → List EventName → List TxHash → List TxHash
  contract_hashes address [] set = set
  contract_hashes address (name ∷ names) set =
      add_hashes (fetch_event_logs (provider address name) from to)
        (contract_hashes address names set)

  abbrev pub token_event_names : List EventName
  token_event_names = EventName.investment_completed ∷ EventName.transfer ∷ []

  abbrev pub rent_event_names : List EventName
  rent_event_names =
      EventName.rent_paid ∷ EventName.investor_paid ∷ EventName.rent_distributed
      ∷ EventName.rewards_claimed ∷ []

  unfoldable pub token_hashes : List PropertyRow → List TxHash → List TxHash
  token_hashes [] set = set
  token_hashes (row ∷ rows) set = elim row.token_address [
    | none ↦ token_hashes rows set
    | some token ↦ contract_hashes token token_event_names (token_hashes rows set)
  ]

  unfoldable pub discover_transaction_hashes : Option Address → List PropertyRow → List TxHash
  discover_transaction_hashes none rows = token_hashes rows []
  discover_transaction_hashes (some rent) rows =
      contract_hashes rent rent_event_names (token_hashes rows [])
