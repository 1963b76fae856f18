-- ===== src/Auth/Tables.antt =====
-- The tables of sign-in (backend/db/schema.py), the answers of its calls, and what stands outside
-- the program: the signature recovery of eth_account and the token codec of PyJWT.
use web3_real_estate.Base.{ℕ, Bool, Option, List, Result}
use web3_real_estate.Base.Text.{Text}
use web3_real_estate.Auth.Address.{RolePrefix}

-- The parts that `build_signing_message` puts in the message, beside its constants.
pub record Message : Type 0 where
  pub wallet_address : Text
  pub nonce : Text
  pub issued_at : ℕ

-- `auth_nonces`, unique by nonce; a message of none is the empty text of a legacy row.
pub record NonceRow : Type 0 where
  pub id : ℕ
  pub wallet_address : Text
  pub nonce : Text
  pub message : Option Message
  pub expires_at : ℕ
  pub used_at : Option ℕ

-- `auth_sessions`, unique by jti
pub record SessionRow : Type 0 where
  pub jti : Text
  pub wallet_address : Text
  pub role : Text
  pub issued_at : ℕ
  pub expires_at : ℕ
  pub revoked_at : Option ℕ

-- `PREFIX-nnn`
pub record DisplayId : Type 0 where
  pub prefix : RolePrefix
  pub number : ℕ

-- `users`, unique by wallet_address and by email; an `AuthUser` has the same fields. A text that
-- may be NULL or empty, which the code does not tell apart, is none.
pub record UserRow : Type 0 where
  pub id : ℕ
  pub wallet_address : Text
  pub role : Text
  pub email : Option Text
  pub active : Bool
  pub full_name : Option Text
  pub display_id : Option DisplayId
  pub profile_role : Option Text
  pub last_login : Option ℕ

pub record AuthStore : Type 0 where
  pub nonces : List NonceRow
  pub sessions : List SessionRow
  pub users : List UserRow
  -- the next values of the id columns
  pub next_nonce : ℕ
  pub next_user : ℕ

-- The messages of `AuthError`, and an exception of the database.
pub data AuthError : Type 0 where
  invalid_wallet missing_signature unknown_nonce nonce_used nonce_expired : AuthError
  stale_nonce recovery_failed signer_mismatch invalid_role name_required : AuthError
  already_registered user_not_found session_expired invalid_token malformed_token : AuthError
  session_inactive user_missing user_disabled role_changed database_error : AuthError

-- The payload of a session token.
pub record Claims : Type 0 where
  pub sub : Text
  pub role : Text
  pub jti : Text
  pub iat : ℕ
  pub exp : ℕ

-- The settings of backend/config/settings.py, and the two libraries.
pub record Platform : Type 0 where
  pub nonce_ttl_seconds : ℕ
  pub session_ttl_hours : ℕ
  -- `Account.recover_message`; none where it raises
  pub recover_message : Message → Text → Option Text
  -- `jwt.encode` and, at a time, `jwt.decode` with the program's secret and issuer
  pub encode : Claims → Text
  pub decode : ℕ → Text → Result AuthError Claims
