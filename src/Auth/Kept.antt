-- ===== src/Auth/Kept.antt =====
-- Predicates on the sign-in tables along the requests of backend/api/routers/auth.py.
use web3_real_estate.Base.{
  ℕ, Option, none, some, List, [], ◌∷◌, ok, err, Bool-cases, inl, inr, Result, ◌==◌, not, is_some,
}
use web3_real_estate.Base.Ends.{Ends, ends_rules, Ends-pair, Ends-if, Ends-option, Ends-result}
use web3_real_estate.Base.Text.{Text, text_eq, lower, strip}
use web3_real_estate.Auth.Tables.{UserRow, AuthStore, AuthError, Platform, Claims}
use web3_real_estate.Auth.Address.{
  normalize_address, clean_full_name, is_valid_role, is_valid_eth_address,
}
use web3_real_estate.Base.Keyed.{find}
use web3_real_estate.Auth.Nonces.{issue_nonce, consume_nonce, verify_signature}
use web3_real_estate.Auth.Users.{
  get_user_by_wallet, register_user, touch_last_login, update_user_full_name, insert_user,
  update_wallet, wallet_key, new_user,
}
use web3_real_estate.Auth.Sessions.{issue_session, revoke_session, resolve_authenticated_user}
use web3_real_estate.Auth.Routes.{
  post_nonce, post_verify, post_register, get_me, update_display_name, post_logout, admit, sign_in,
  open_session, get_current_user, revoke_claims, extract_bearer, after_bearer, Request, serve,
  serve_all,
}

-- The nonces that a request may draw satisfy a predicate.
abbrev pub Draws : (Text → Type 0) → Request → Type 0
Draws Q (Request.nonce_request w n now) = Q n
Draws Q (Request.verify_request w sig n jti now) = Unit
Draws Q (Request.register_request w sig n role email name jti now) = Unit
Draws Q (Request.me_request a now) = Unit
Draws Q (Request.rename_request a name now) = Unit
Draws Q (Request.logout_request a now) = Unit

abbrev pub AllDraw : (Text → Type 0) → List Request → Type 0
AllDraw Q [] = Unit
AllDraw Q (r ∷ rs) = Draws Q r × AllDraw Q rs

pub record Kept (platform : Platform) (Q : Text → Type 0) (P : AuthStore → Type 0) : Type 0 where
  pub users_kept :
      (us : List UserRow) (n : ℕ) (s : AuthStore) → P s → P (record s { users = us; next_user = n })
  pub issue_kept :
      (w n : Text) (now : ℕ) (s : AuthStore) → Q n → P s → P (issue_nonce platform w n now s).1
  pub consume_kept :
      (w n : Text) (now : ℕ) (s : AuthStore) → P s → P (consume_nonce platform w n now s).1
  pub session_kept :
      (w role jti : Text) (now : ℕ) (s : AuthStore)
      → P s
      → P (issue_session platform w role jti now s).1
  pub revoke_kept : (jti : Text) (now : ℕ) (s : AuthStore) → P s → P (revoke_session jti now s)

module _ {platform : Platform} {Q : Text → Type 0} {P : AuthStore → Type 0}
    (k : Kept platform Q P) where
  get_user_kept : (w : Text) (s : AuthStore) → P s → Ends P (get_user_by_wallet w s)
  unfolding get_user_by_wallet
  get_user_kept w s p =
      (Ends-option (find wallet_key (normalize_address w) s.users) _ _ (Ends-pair _ s p)
        (λ row. Ends-pair _ _ (k.users_kept _ _ s p)))

  user_at : (w : Text) (s : AuthStore) → P s → P (get_user_by_wallet w s).1
  user_at w s p = (get_user_kept w s p).at

  verify_kept :
      (w sig n : Text) (now : ℕ) (s : AuthStore)
      → P s
      → Ends P (verify_signature platform w sig n now s)
  unfolding verify_signature
  verify_kept w sig n now s p = search (ends_rules, k.consume_kept) depth 8

  resolve_kept :
      (token : Text) (now : ℕ) (s : AuthStore)
      → P s
      → Ends P (resolve_authenticated_user platform token now s)
  unfolding resolve_authenticated_user
  resolve_kept token now s p =
      (Ends-result (platform.decode now token) _ _ (λ e. Ends-pair _ s p)
        (λ claims. search (ends_rules, user_at) depth 8))

  insert_kept : (row : UserRow) (s : AuthStore) → P s → Ends P (insert_user row s)
  unfolding insert_user
  insert_kept row s p = search (ends_rules, k.users_kept) depth 8

  register_kept :
      (w role : Text) (email : Option Text) (name : Text) (now : ℕ) (s : AuthStore)
      → P s
      → Ends P (register_user w role email name now s)
  unfolding register_user
  register_kept w role email name now s p =
      Ends-if (not (is_valid_role role)) _ _ (Ends-pair (err AuthError.invalid_role) s p) (
        Ends-if (not (is_valid_eth_address w)) _ _ (Ends-pair (err AuthError.invalid_wallet) s p) (
          Ends-option (clean_full_name name) _ _ (Ends-pair (err AuthError.name_required) s p)
            (λ cleaned.
              Ends-if (is_some (get_user_by_wallet w s).0) _ _
                (Ends-pair (err AuthError.already_registered) _ (user_at w s p))
                (insert_kept (new_user s w role email cleaned now) s p))))

  touch_kept : (w : Text) (now : ℕ) (s : AuthStore) → P s → P (touch_last_login w now s)
  unfolding touch_last_login
  touch_kept w now s p = k.users_kept _ _ s p

  rename_kept : (w name : Text) (s : AuthStore) → P s → Ends P (update_user_full_name w name s)
  unfolding update_user_full_name
  rename_kept w name s p =
      (Ends-option (clean_full_name name) _ _ (Ends-pair _ s p) (λ cleaned.
        Ends-if (not (is_some (find wallet_key (normalize_address w) s.users))) _ _
          (Ends-pair (err AuthError.user_not_found) s p)
          (Ends-option (get_user_by_wallet w (renaming cleaned)).0 _ _
            (Ends-pair _ _ (renamed cleaned)) (λ user. Ends-pair _ _ (renamed cleaned)))))
    where
      renaming : Text → AuthStore
      renaming cleaned = record s {
        users =
            update_wallet (λ row. record row { full_name = some cleaned }) (normalize_address w)
              s.users;
      }

      renamed : (cleaned : Text) → P (get_user_by_wallet w (renaming cleaned)).1
      renamed cleaned = (get_user_kept w _ (k.users_kept _ _ s p)).at

  sign_in_kept :
      (w : Text) (user : UserRow) (jti : Text) (now : ℕ) (s : AuthStore)
      → P s
      → Ends P (sign_in platform w user jti now s)
  unfolding sign_in
  sign_in_kept w user jti now s p =
      (Ends-result (issue_session platform user.wallet_address user.role jti now s).0 _ _
        (λ e. Ends-pair _ _ opened)
        (λ session. Ends-pair _ _ (get_user_kept w _ (touch_kept _ now _ opened)).at))
    where
      opened : P (issue_session platform user.wallet_address user.role jti now s).1
      opened = k.session_kept _ _ _ now s p

  admit_kept :
      (w : Text) (user : Option UserRow) (jti : Text) (now : ℕ) (s : AuthStore)
      → P s
      → Ends P (admit platform w user jti now s)
  unfolding admit
  admit_kept w none jti now s p = Ends-pair _ s p
  admit_kept w (some user) jti now s p =
      (Ends-if (not user.active) _ _ (Ends-pair _ s p) (sign_in_kept w user jti now s p))

  open_kept :
      (user : UserRow) (jti : Text) (now : ℕ) (s : AuthStore)
      → P s
      → Ends P (open_session platform user jti now s)
  unfolding open_session
  open_kept user jti now s p =
      (Ends-result (issue_session platform user.wallet_address user.role jti now s).0 _ _
        (λ e. Ends-pair _ _ opened) (λ session. Ends-pair _ _ opened))
    where
      opened : P (issue_session platform user.wallet_address user.role jti now s).1
      opened = k.session_kept _ _ _ now s p

  current_user_kept :
      (a : Text) (now : ℕ) (s : AuthStore) → P s → Ends P (get_current_user platform a now s)
  unfolding get_current_user
  current_user_kept a now s p =
      (Ends-option (extract_bearer a) _ _ (Ends-pair _ s p) (λ token.
        Ends-result (resolve_authenticated_user platform token now s).0 _ _
          (λ e. Ends-pair _ _ (resolve_kept token now s p).at)
          (λ user. Ends-pair _ _ (resolve_kept token now s p).at)))

  revoke_claims_kept :
      (r : Result AuthError Claims) (now : ℕ) (s : AuthStore)
      → P s
      → P (revoke_claims platform r now s)
  unfolding revoke_claims
  revoke_claims_kept (err e) now s p = p
  revoke_claims_kept (ok claims) now s p = elim (Bool-cases (claims.jti == [])) [
    | inl e ↦ rw e p
    | inr e ↦ rw e (k.revoke_kept claims.jti now s p)
  ]

  -- A request that draws an allowed nonce, if it draws one, keeps the predicate.
  pub serve_kept : (r : Request) (s : AuthStore) → Draws Q r → P s → Ends P (serve platform r s)
  unfolding serve post_nonce post_verify post_register get_me update_display_name post_logout
  serve_kept (Request.nonce_request w n now) s q p =
      (Ends-if (not (is_valid_eth_address w)) _ _ (Ends-pair _ s p) (
        Ends-result (issue_nonce platform w n now s).0 _ _
          (λ e. Ends-pair _ _ (k.issue_kept w n now s q p))
          (λ issued. Ends-pair _ _ (k.issue_kept w n now s q p))))
  serve_kept (Request.verify_request w sig n jti now) s q p =
      (Ends-result (verify_signature platform w sig n now s).0 _ _
        (λ e. Ends-pair _ _ (verify_kept w sig n now s p).at)
        (λ recovered.
          admit_kept recovered _ jti now _
            (get_user_kept recovered _ (verify_kept w sig n now s p).at).at))
  serve_kept (Request.register_request w sig n role email name jti now) s q p =
      (Ends-result (verify_signature platform w sig n now s).0 _ _ (λ e. Ends-pair _ _ verified)
        (λ recovered.
          Ends-result
            (register_user recovered (lower (strip role)) email name now
              (verify_signature platform w sig n now s).1).0
            _ _ (λ e. Ends-pair _ _ (register_kept recovered _ email name now _ verified).at)
            (λ user.
              open_kept user jti now _ (register_kept recovered _ email name now _ verified).at)))
    where
      verified : P (verify_signature platform w sig n now s).1
      verified = (verify_kept w sig n now s p).at
  serve_kept (Request.me_request a now) s q p =
      (Ends-result (get_current_user platform a now s).0 _ _
        (λ e. Ends-pair _ _ (current_user_kept a now s p).at)
        (λ user. Ends-pair _ _ (current_user_kept a now s p).at))
  serve_kept (Request.rename_request a name now) s q p =
      (Ends-result (get_current_user platform a now s).0 _ _ (λ e. Ends-pair _ _ current)
        (λ user.
          Ends-result
            (update_user_full_name user.wallet_address name (get_current_user platform a now s).1).0
            _ _ (λ e. Ends-pair _ _ (rename_kept user.wallet_address name _ current).at)
            (λ updated. Ends-pair _ _ (rename_kept user.wallet_address name _ current).at)))
    where
      current : P (get_current_user platform a now s).1
      current = (current_user_kept a now s p).at
  serve_kept (Request.logout_request a now) s q p =
      (Ends-option (after_bearer a) _ _ (Ends-pair _ s p)
        (λ rest. Ends-pair _ _ (revoke_claims_kept _ now s p)))

  pub serve_all_kept :
      (rs : List Request) (s : AuthStore) → AllDraw Q rs → P s → P (serve_all platform rs s)
  unfolding serve_all
  serve_all_kept [] s q p = p
  serve_all_kept (r ∷ rs) s q p = serve_all_kept rs _ q.1 (serve_kept r s q.0 p).at
