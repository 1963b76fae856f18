-- ===== src/Indexer/Replay.antt =====
-- Writes that a replay of the same blocks repeats.
use web3_real_estate.Base.{
  ℕ, ◌≡◌, refl, false, Option-cases, inl, inr, arith, pair_eq, pair_beq_iff, nat_eq,
}
use web3_real_estate.Base.Keyed.{find, find-upsert}
use web3_real_estate.Indexer.Rows.{
  Address, TxHash, EventName, EventRow, WalletRow, Store, event_key,
}
use web3_real_estate.Indexer.Writes.{record_event, get_or_create_user_id}

-- An event that was recorded is known from then on: recorded again, from whatever block, contract
-- and name, it counts as old and the database stays as it is.
pub record_event_again :
    (h : TxHash) (i b b' : ℕ) (a a' : Address) (name name' : EventName) (s : Store)
    → let t = (record_event h i b a name s).1 in record_event h i b' a' name' t ≡ (false, t)
unfolding record_event
record_event_again h i b b' a a' name name' s =
    elim (Option-cases (find event_key (h, i) s.events)) [
      | inr (old, e) ↦ ground (arith, e)
      | inl e ↦
          let row : EventRow = record {
            tx_hash = h;
            log_index = i;
            block_number = b;
            contract_address = a;
            event_name = name;
          } in
          ground (
            arith,
            e,
            pair_beq_iff (h, i) (h, i),
            find-upsert event_key (λ old. old) row (h, i) s.events (λ x. refl),
          )
    ]

-- A wallet has one user: its id is the same the second time, and nothing is written then.
pub get_or_create_user_id_again :
    (w : Address) (s : Store)
    → let (id, t) = get_or_create_user_id w s in get_or_create_user_id w t ≡ (id, t)
unfolding get_or_create_user_id
get_or_create_user_id_again w s =
    elim (Option-cases (find (λ (r : WalletRow). r.wallet_address) w s.users)) [
      | inr (old, e) ↦ ground (arith, e)
      | inl e ↦
          let row : WalletRow = record { id = s.next_user; wallet_address = w } in
          ground (
            arith,
            e,
            find-upsert (λ (r : WalletRow). r.wallet_address) (λ old. old) row w s.users
                (λ x. refl),
          )
    ]
