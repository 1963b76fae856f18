-- ===== src/Auth/Routes.antt =====
-- The endpoints of backend/api/routers/auth.py with the bearer check of backend/api/deps.py, and
-- the service as a machine that answers one request after the other.
use web3_real_estate.Base.{
  ℕ, not, if◌then◌else◌, eqb, Option, none, some, get_or, List, [], ◌∷◌, ◌==◌, Result, ok, err,
}
use web3_real_estate.Base.Text.{Text, text_eq, lower, strip}
use web3_real_estate.Auth.Address.{is_valid_eth_address}
use web3_real_estate.Auth.Tables.{UserRow, AuthStore, AuthError, Claims, Platform}
use web3_real_estate.Auth.Nonces.{IssuedNonce, issue_nonce, verify_signature}
use web3_real_estate.Auth.Users.{
  get_user_by_wallet, register_user, touch_last_login, update_user_full_name,
}
use web3_real_estate.Auth.Sessions.{
  IssuedSession, issue_session, revoke_session, resolve_authenticated_user,
}

-- An `HTTPException`: its status code and the error behind it.
pub record HttpError : Type 0 where
  pub status : ℕ
  pub error : AuthError

-- An answer of the endpoints.
pub data Reply : Type 0 where
  nonce_issued : IssuedNonce → Reply
  unregistered : Text → Reply
  signed_in : IssuedSession → UserRow → Reply
  me : UserRow → Reply
  logged_out : Reply

abbrev pub Answer : Type 0
Answer = Result HttpError Reply

abbrev pub refused : ℕ → AuthError → Answer
refused status error = err (record { status = status; error = error })

-- `is "bearer "`, without regard to case, what the text begins with; then the rest
unfoldable pub after_bearer : Text → Option Text
after_bearer (b ∷ e ∷ a ∷ r ∷ e' ∷ r' ∷ gap ∷ rest) =
    if lower (b ∷ e ∷ a ∷ r ∷ e' ∷ r' ∷ []) == 98 ∷ 101 ∷ 97 ∷ 114 ∷ 101 ∷ 114 ∷ []
    then (if eqb gap 32 then some rest else none)
    else none
after_bearer text = none

unfoldable pub non_empty : Text → Option Text
non_empty [] = none
non_empty (c ∷ cs) = some (c ∷ cs)

-- `_extract_bearer`
unfoldable pub extract_bearer : Text → Option Text
extract_bearer authorization = elim (after_bearer (strip authorization)) [
  | none ↦ none
  | some rest ↦ non_empty (strip rest)
]

module _ (platform : Platform) where
  unfoldable pub post_nonce : Text → Text → ℕ → AuthStore → Answer × AuthStore
  post_nonce wallet_address nonce now s =
      if not (is_valid_eth_address wallet_address)
      then (refused 400 AuthError.invalid_wallet, s)
      else elim (issue_nonce platform wallet_address nonce now s).0 [
        | ok issued ↦
            (ok (Reply.nonce_issued issued), (issue_nonce platform wallet_address nonce now s).1)
        | err e ↦ (refused 500 e, (issue_nonce platform wallet_address nonce now s).1)
      ]

  -- A verified wallet of a user signs in; the user is read once more after the login is stamped.
  unfoldable pub sign_in : Text → UserRow → Text → ℕ → AuthStore → Answer × AuthStore
  sign_in recovered user jti now s =
      elim (issue_session platform user.wallet_address user.role jti now s).0 [
        | err e ↦
            (refused 400 e, (issue_session platform user.wallet_address user.role jti now s).1)
        | ok session ↦
            let t =
              touch_last_login user.wallet_address now
                (issue_session platform user.wallet_address user.role jti now s).1 in
            (
              ok (Reply.signed_in session (get_or (get_user_by_wallet recovered t).0 user)),
              (get_user_by_wallet recovered t).1,
            )
      ]

  unfoldable pub admit : Text → Option UserRow → Text → ℕ → AuthStore → Answer × AuthStore
  admit recovered none jti now s = (ok (Reply.unregistered recovered), s)
  admit recovered (some user) jti now s =
      if not user.active
      then (refused 403 AuthError.user_disabled, s)
      else sign_in recovered user jti now s

  unfoldable pub post_verify : Text → Text → Text → Text → ℕ → AuthStore → Answer × AuthStore
  post_verify wallet_address signature nonce jti now s =
      let t = (verify_signature platform wallet_address signature nonce now s).1 in
      elim (verify_signature platform wallet_address signature nonce now s).0 [
        | err e ↦ (refused 401 e, t)
        | ok recovered ↦
            admit recovered (get_user_by_wallet recovered t).0 jti now
              (get_user_by_wallet recovered t).1
      ]

  unfoldable pub register_status : AuthError → ℕ
  register_status AuthError.already_registered = 409
  register_status AuthError.database_error = 500
  register_status e = 400

  -- The session of a new user; an exception of `issue_session` is not handled here.
  unfoldable pub open_session : UserRow → Text → ℕ → AuthStore → Answer × AuthStore
  open_session user jti now s =
      elim (issue_session platform user.wallet_address user.role jti now s).0 [
        | err e ↦
            (refused 500 e, (issue_session platform user.wallet_address user.role jti now s).1)
        | ok session ↦ (
          ok (Reply.signed_in session user),
          (issue_session platform user.wallet_address user.role jti now s).1,
        )
      ]

  unfoldable pub post_register :
      Text → Text → Text → Text → Option Text → Text → Text → ℕ → AuthStore → Answer × AuthStore
  post_register wallet_address signature nonce role email full_name jti now s =
      let t = (verify_signature platform wallet_address signature nonce now s).1 in
      elim (verify_signature platform wallet_address signature nonce now s).0 [
        | err e ↦ (refused 401 e, t)
        | ok recovered ↦
            let u = (register_user recovered (lower (strip role)) email full_name now t).1 in
            elim (register_user recovered (lower (strip role)) email full_name now t).0 [
              | err e ↦ (refused (register_status e) e, u)
              | ok user ↦ open_session user jti now u
            ]
      ]

  -- `get_current_user`; the detail of a missing header is no `AuthError` and stands as one here.
  unfoldable pub get_current_user : Text → ℕ → AuthStore → Result HttpError UserRow × AuthStore
  get_current_user authorization now s = elim (extract_bearer authorization) [
    | none ↦ (err (record { status = 401; error = AuthError.malformed_token }), s)
    | some token ↦
        let t = (resolve_authenticated_user platform token now s).1 in
        elim (resolve_authenticated_user platform token now s).0 [
          | err e ↦ (err (record { status = 401; error = e }), t)
          | ok user ↦ (ok user, t)
        ]
  ]

  unfoldable pub get_me : Text → ℕ → AuthStore → Answer × AuthStore
  get_me authorization now s = elim (get_current_user authorization now s).0 [
    | err e ↦ (err e, (get_current_user authorization now s).1)
    | ok user ↦ (ok (Reply.me user), (get_current_user authorization now s).1)
  ]

  unfoldable pub update_display_name : Text → Text → ℕ → AuthStore → Answer × AuthStore
  update_display_name authorization full_name now s =
      let t = (get_current_user authorization now s).1 in
      elim (get_current_user authorization now s).0 [
        | err e ↦ (err e, t)
        | ok user ↦
            let u = (update_user_full_name user.wallet_address full_name t).1 in
            elim (update_user_full_name user.wallet_address full_name t).0 [
              | err e ↦ (refused 400 e, u)
              | ok updated ↦ (ok (Reply.me updated), u)
            ]
      ]

  unfoldable pub revoke_claims : Result AuthError Claims → ℕ → AuthStore → AuthStore
  revoke_claims (err e) now s = s
  revoke_claims (ok claims) now s = if claims.jti == [] then s else revoke_session claims.jti now s

  -- Here the header is not stripped before its prefix is tested.
  unfoldable pub post_logout : Text → ℕ → AuthStore → Answer × AuthStore
  post_logout authorization now s = elim (after_bearer authorization) [
    | none ↦ (ok Reply.logged_out, s)
    | some rest ↦ (ok Reply.logged_out, revoke_claims (platform.decode now (strip rest)) now s)
  ]

-- A request with the time of its arrival, and the random values that its handler draws.
pub data Request : Type 0 where
  nonce_request : (wallet_address nonce : Text) (now : ℕ) → Request
  verify_request : (wallet_address signature nonce jti : Text) (now : ℕ) → Request
  register_request :
      (wallet_address signature nonce role : Text) (email : Option Text) (full_name jti : Text)
      (now : ℕ)
      → Request
  me_request : (authorization : Text) (now : ℕ) → Request
  rename_request : (authorization full_name : Text) (now : ℕ) → Request
  logout_request : (authorization : Text) (now : ℕ) → Request

module _ (platform : Platform) where
  unfoldable pub serve : Request → AuthStore → Answer × AuthStore
  serve (Request.nonce_request w n now) s = post_nonce platform w n now s
  serve (Request.verify_request w sig n jti now) s = post_verify platform w sig n jti now s
  serve (Request.register_request w sig n role email name jti now) s =
      post_register platform w sig n role email name jti now s
  serve (Request.me_request a now) s = get_me platform a now s
  serve (Request.rename_request a name now) s = update_display_name platform a name now s
  serve (Request.logout_request a now) s = post_logout platform a now s

  unfoldable pub serve_all : List Request → AuthStore → AuthStore
  serve_all [] s = s
  serve_all (r ∷ rs) s = serve_all rs (serve r s).1
