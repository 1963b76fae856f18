-- ===== src/Auth/Sessions.antt =====
-- Session tokens: `issue_session` to `resolve_authenticated_user`.
use web3_real_estate.Base.{
  ℕ, ◌+◌, ◌*◌, Bool, false, ◌&&◌, ◌||◌, not, ltb, if◌then◌else◌, Option, none, some, is_some, List,
  [], ◌∷◌, ◌==◌, Result, ok, err,
}
use web3_real_estate.Base.Attempt.{Attempt}
use web3_real_estate.Base.Text.{Text, text_eq, lower}
use web3_real_estate.Base.Keyed.{find}
use web3_real_estate.Auth.Address.{normalize_address, canonical_role, is_valid_role}
use web3_real_estate.Auth.Tables.{SessionRow, UserRow, AuthStore, AuthError, Claims, Platform}
use web3_real_estate.Auth.Users.{get_user_by_wallet}

pub record IssuedSession : Type 0 where
  pub token : Text
  pub jti : Text
  pub role : Text
  pub wallet_address : Text
  pub expires_at : ℕ

-- `revoked_at IS NULL` and the row is selected: the revocation is stamped.
unfoldable pub revoke_where : (SessionRow → Bool) → ℕ → List SessionRow → List SessionRow
revoke_where select now [] = []
revoke_where select now (row ∷ rows) =
    (if select row && not (is_some row.revoked_at)
      then record row { revoked_at = some now }
      else row)
    ∷ revoke_where select now rows

unfoldable pub revoke_session : Text → ℕ → AuthStore → AuthStore
revoke_session jti now s = record s {
  sessions = revoke_where (λ row. row.jti == jti) now s.sessions;
}

unfoldable pub count_where : (SessionRow → Bool) → List SessionRow → ℕ
count_where select [] = 0
count_where select (row ∷ rows) =
    (if select row && not (is_some row.revoked_at) then 1 else 0) + count_where select rows

unfoldable pub revoke_all_sessions_for_wallet : Text → ℕ → AuthStore → ℕ × AuthStore
revoke_all_sessions_for_wallet wallet_address now s =
    let wallet = normalize_address wallet_address in
    let select = λ (row : SessionRow). lower row.wallet_address == wallet in
    (count_where select s.sessions, record s { sessions = revoke_where select now s.sessions })

unfoldable pub session_is_active : Text → ℕ → AuthStore → Bool
session_is_active jti now s = elim (find (λ (r : SessionRow). r.jti) jti s.sessions) [
  | none ↦ false
  | some row ↦ not (is_some row.revoked_at) && not (ltb row.expires_at now)
]

-- The checks of a user against the claims of the token.
unfoldable pub check_user : Claims → Option UserRow → Result AuthError UserRow
check_user claims none = err AuthError.user_missing
check_user claims (some user) =
    if not user.active
    then err AuthError.user_disabled
    else if not (canonical_role user.role == canonical_role claims.role)
    then err AuthError.role_changed
    else ok user

module _ (platform : Platform) where
  -- `issue_session` with a jti that `uuid4` drew; one that the table has violates its unique
  -- constraint, and nothing is written.
  unfoldable pub issue_session : Text → Text → Text → ℕ → Attempt AuthError AuthStore IssuedSession
  issue_session wallet_address role jti now s =
      let canonical = canonical_role role in
      if not (is_valid_role canonical)
      then (err AuthError.invalid_role, s)
      else let wallet = normalize_address wallet_address in
        let expires_at = now + platform.session_ttl_hours * 3600 in
        let claims : Claims = record {
          sub = wallet;
          role = canonical;
          jti = jti;
          iat = now;
          exp = expires_at;
        } in
        let row : SessionRow = record {
          jti = jti;
          wallet_address = wallet;
          role = canonical;
          issued_at = now;
          expires_at = expires_at;
          revoked_at = none;
        } in
        if is_some (find (λ (r : SessionRow). r.jti) jti s.sessions)
        then (err AuthError.database_error, s)
        else (
          ok (record {
            token = platform.encode claims;
            jti = jti;
            role = canonical;
            wallet_address = wallet;
            expires_at = expires_at;
          }),
          record s { sessions = row ∷ s.sessions },
        )

  unfoldable pub resolve_authenticated_user : Text → ℕ → Attempt AuthError AuthStore UserRow
  resolve_authenticated_user token now s = elim (platform.decode now token) [
    | err e ↦ (err e, s)
    | ok claims ↦
        let wallet = normalize_address claims.sub in
        if claims.jti == [] || wallet == []
        then (err AuthError.malformed_token, s)
        else if not (session_is_active claims.jti now s)
        then (err AuthError.session_inactive, s)
        else (check_user claims (get_user_by_wallet wallet s).0, (get_user_by_wallet wallet s).1)
  ]
