-- ===== src/Auth/Nonces.antt =====
-- Nonces and the verification of a signature: `issue_nonce` to `verify_signature`.
use web3_real_estate.Base.{
  ℕ, ◌+◌, Bool, ◌&&◌, ◌||◌, not, ltb, if◌then◌else◌, eqb, Option, none, some, is_some, List, [],
  ◌∷◌, ◌==◌, Result, ok, err,
}
use web3_real_estate.Base.Attempt.{Attempt}
use web3_real_estate.Base.Text.{Text, text_eq, lower}
use web3_real_estate.Base.Keyed.{find}
use web3_real_estate.Auth.Address.{normalize_address, is_valid_eth_address}
use web3_real_estate.Auth.Tables.{Message, NonceRow, AuthStore, AuthError, Platform}

pub record IssuedNonce : Type 0 where
  pub nonce : Text
  pub message : Message
  pub expires_at : ℕ

-- A row that `issue_nonce` purges: one of the wallet that has expired or was used.
unfoldable pub is_stale : Text → ℕ → NonceRow → Bool
is_stale wallet now row =
    lower row.wallet_address == wallet && (ltb row.expires_at now || is_some row.used_at)

unfoldable pub purge : Text → ℕ → List NonceRow → List NonceRow
purge wallet now [] = []
purge wallet now (row ∷ rows) =
    if is_stale wallet now row then purge wallet now rows else row ∷ purge wallet now rows

unfoldable pub mark_used : ℕ → ℕ → List NonceRow → List NonceRow
mark_used id now [] = []
mark_used id now (row ∷ rows) =
    (if eqb row.id id then record row { used_at = some now } else row) ∷ mark_used id now rows

module _ (platform : Platform) where
  -- `issue_nonce` with a nonce that `generate_nonce` drew; one that the table has violates its
  -- unique constraint, and nothing is written.
  unfoldable pub issue_nonce : Text → Text → ℕ → Attempt AuthError AuthStore IssuedNonce
  issue_nonce wallet_address nonce now s =
      if not (is_valid_eth_address wallet_address)
      then (err AuthError.invalid_wallet, s)
      else let wallet = normalize_address wallet_address in
        let message : Message = record {
          wallet_address = wallet;
          nonce = nonce;
          issued_at = now;
        } in
        let kept = purge wallet now s.nonces in
        let expires_at = now + platform.nonce_ttl_seconds in
        let row : NonceRow = record {
          id = s.next_nonce;
          wallet_address = wallet;
          nonce = nonce;
          message = some message;
          expires_at = expires_at;
          used_at = none;
        } in
        if is_some (find (λ (r : NonceRow). r.nonce) nonce kept)
        then (err AuthError.database_error, s)
        else (
          ok (record { nonce = nonce; message = message; expires_at = expires_at }),
          record s { nonces = row ∷ kept; next_nonce = s.next_nonce + 1 },
        )

  -- `_consume_nonce`: the row is marked used, and that is committed whatever comes after.
  unfoldable pub consume_nonce : Text → Text → ℕ → Attempt AuthError AuthStore (Option Message)
  consume_nonce wallet_address nonce now s =
      elim (find (λ (r : NonceRow). r.nonce) nonce s.nonces) [
        | none ↦ (err AuthError.unknown_nonce, s)
        | some row ↦
            if not (lower row.wallet_address == normalize_address wallet_address)
            then (err AuthError.unknown_nonce, s)
            else if is_some row.used_at
            then (err AuthError.nonce_used, s)
            else if ltb row.expires_at now
            then (err AuthError.nonce_expired, s)
            else (ok row.message, record s { nonces = mark_used row.id now s.nonces })
      ]

  -- `recover_signer` and the comparison of `verify_signature`
  unfoldable pub check_signer : Text → Text → Message → Result AuthError Text
  check_signer wallet_address signature message =
      elim (platform.recover_message message signature) [
        | none ↦ err AuthError.recovery_failed
        | some recovered ↦
            if normalize_address recovered == normalize_address wallet_address
            then ok (normalize_address recovered)
            else err AuthError.signer_mismatch
      ]

  unfoldable pub check_message :
      Text → Text → Result AuthError (Option Message) → Result AuthError Text
  check_message wallet_address signature (err e) = err e
  check_message wallet_address signature (ok none) = err AuthError.stale_nonce
  check_message wallet_address signature (ok (some message)) =
      check_signer wallet_address signature message

  unfoldable pub verify_signature : Text → Text → Text → ℕ → Attempt AuthError AuthStore Text
  verify_signature wallet_address signature nonce now s =
      if not (is_valid_eth_address wallet_address)
      then (err AuthError.invalid_wallet, s)
      else if signature == [] || nonce == []
      then (err AuthError.missing_signature, s)
      else (
        check_message wallet_address signature (consume_nonce wallet_address nonce now s).0,
        (consume_nonce wallet_address nonce now s).1,
      )
