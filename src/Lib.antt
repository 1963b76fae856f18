-- ===== src/Lib.antt =====
-- A verification library for the backend of a real-estate platform on Ethereum: tenants pay rent
-- in ether to a contract, investors hold tokens of properties, and an indexer copies what the
-- contracts emit into a PostgreSQL database that the routes read.
--
-- Parts and their sources, as paths from the repository's root:
--
-- * Indexer models backend/services/blockchain_indexer.py. Rows holds the tables of
--   backend/db/schema.py that it writes, Chain what it reads from the node, Writes the single
--   upserts (`_record_event` to `_build_gas_fields`), Handlers and RentHandlers the handlers of
--   decoded events, Reconcile `reconcile_transaction`, Logs `_fetch_event_logs` and
--   `_discover_transaction_hashes`, Sync `sync_once`. Payouts models the rent shares of
--   backend/api/_helpers.py that the handlers call. A handler is an action on the store that may
--   raise; `settle` commits its store or gives it up, as the database transaction does.
--   Stable and Valid are about the stored rows, Claims, Cycle and Replay about single writes,
--   Ownership and Transfers about the token holdings, Sync/Steps, Passes, Outcome and Lost about a
--   pass.
-- * Auth models backend/services/auth.py, backend/api/deps.py and backend/api/routers/auth.py:
--   Address the texts of addresses and roles, Nonces, Users and Sessions the functions on the
--   tables, Routes the endpoints and the service that answers a list of requests. These functions
--   commit as they go, so a refused call may leave writes: they answer with the store beside it.
-- * Rent models backend/api/rent_cycle.py, backend/services/tenant_rent_eligibility.py and a filter
--   of backend/services/tenant_catalog.py. Due is about due times, Payable about who may pay.
-- * Funding models backend/services/wallet_funding.py, investment_funding.py and
--   rent_payment_funding.py; Breaker models the class of backend/infra/resilience.py.
-- * RentContract models contracts/RentDistribution.sol: a call answers the new state, or nothing
--   where it reverts. Split is about the shares of a payment, Sound about the ledgers and the ether
--   of a state, Rents and Claims about single calls, Reach about the states that calls can reach.
-- * Yield models what backend/api/_helpers.py does on that contract and on the payout rows: Backfill
--   the credits for missed rent, Investors the synchronisation of the list of investors, Payouts
--   the reconciliation of claims and the end of a payment, Setup the registration, the rent on the
--   contract and the repair for one wallet.
-- * RentRoutes models the routes of backend/api/routers/rent.py that change state: Setting those of
--   the owner, Payments those of the tenant, Rewards those of the investor. Investments models
--   backend/api/routers/investments.py: Orders, Confirmation, Recovery and Portfolio. A route
--   answers with the world after its commit or rollback; a rollback restores the database and never
--   the contract.
-- * Queues models backend/infra/queues.py and backend/infra/stream_buffer.py over an interface of
--   Redis with laws. Names models backend/ai/property_name_resolution.py, and Speech models
--   backend/ai/chunk_buffer.py with the tokens' path in backend/api/routers/voice_ws.py.
-- * Base holds what they share: Boolean tests, tables with unique keys (Keyed), the two kinds of
--   calls (Outcome, Attempt) with rules for invariants (Keeps, Ends), integers and text; Calendar
--   the calendar of `datetime`.
--
-- How the program's data are read. In the indexer an address or a hash is the number that its
-- hexadecimal text stands for, and a time the seconds since 1970; in Auth they are texts, lists of
-- code points, with `lower` exact on ASCII. Amounts are natural numbers; a column of ether text
-- that repeats an amount in wei is dropped, and a percentage is its exact fraction. A serial id
-- counts up without the gaps that a rolled-back transaction leaves. Random values (nonces and
-- session ids) and the time come with the request. One connection runs at a time. The score of a
-- name is a number of ten-thousandths, where the program compares floating-point numbers. Dates end
-- before the overflow of `datetime` in December 9999. The column updated_at of investments, which a
-- trigger sets, is dropped. A transfer of ether out of the contract fails or succeeds as a flag of
-- the call says, and no receiver calls back into it.
--
-- How the parts interact. RentRoutes and Investments run the actions of Yield on a world, the
-- store of Indexer together with the state of RentContract; they read receipts from the same Chain
-- as the indexer, call its handlers and `reconcile_transaction`, ask Rent who may pay and Funding
-- whether the wallet can. A call to the node fails as the record Rpc says, for reads and for sends
-- of each property; a read fails for the whole of a request or not at all.
--
-- Outside the program and so parameters: the node with its decoded receipts (Chain, Provider), the
-- recovery of a signature and the token codec (Platform), the balances and prices that Funding
-- reads (Node), the token contracts, Redis and the JSON codec, the normalisation of names and the
-- ratio of the fuzzy matcher.
--
-- Bounds and fuel. The scan of logs halves its window; the fuel is the number of its blocks, which
-- bounds the halvings. The loop over chunks moves on by at least one block; its fuel is the latest
-- block and one. Both are enough, which the results on the scan and on the pass rest on. The loop
-- of the speech buffer has the length of the text and one as fuel, and each phrase shortens it.
--
-- Not modelled: log output and the status record, the advisory lock and the background thread of
-- the indexer, the language-model assistant under backend/ai, the listing and analytics queries,
-- the routes of properties and the deployment of tokens, the Redis client and the cache, migrations,
-- the token contract and the frontend: they are input and output, text for people, or apart from
-- the flow of rent, claims and investments.
pub mod Base
pub mod Calendar
pub mod Indexer
pub mod Auth
pub mod Rent
pub mod Funding
pub mod Breaker
pub mod Speech
pub mod RentContract
pub mod Yield
pub mod RentRoutes
pub mod Investments
pub mod Queues
pub mod Names
mod Tests
