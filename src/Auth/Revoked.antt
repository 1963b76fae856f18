-- ===== src/Auth/Revoked.antt =====
-- Sessions over a run of requests: issued, resolved and revoked (backend/services/auth.py).
use web3_real_estate.Base.{
  ℕ, ◌≡◌, ◌≢◌, ◌∙◌, none, some, Bool, true, false, List, [], ◌∷◌, arith, ok, Bool-cases,
  Result-cases, inl, inr, is_some, ◌==◌, ◌≤◌, ◌<◌, ◌+◌, ◌*◌,
}
use web3_real_estate.Base.Text.{Text, text_eq, text_beq_iff, strip}
use web3_real_estate.Base.Keyed.{find}
use web3_real_estate.Auth.Tables.{SessionRow, UserRow, AuthStore, Platform, Claims}
use web3_real_estate.Auth.Address.{normalize_address, canonical_role}
use web3_real_estate.Auth.Nonces.{issue_nonce, consume_nonce}
use web3_real_estate.Auth.Users.{get_user_by_wallet}
use web3_real_estate.Auth.Sessions.{
  revoke_where, issue_session, revoke_session, session_is_active, check_user,
  resolve_authenticated_user, IssuedSession,
}
use web3_real_estate.Auth.Routes.{Request, serve_all, post_logout, after_bearer, revoke_claims}
use web3_real_estate.Auth.Canonical.{canonical_role_again, normalize_address_again}
use web3_real_estate.Auth.Kept.{AllDraw, Kept, serve_all_kept}

abbrev jti_key : SessionRow → Text
jti_key r = r.jti

-- The session is in the table and revoked.
abbrev pub is_revoked : Text → List SessionRow → Bool
is_revoked jti rows = elim (find jti_key jti rows) [
  | none ↦ false
  | some row ↦ is_some row.revoked_at
]

is_revoked-revoke_where :
    (jti : Text) (select : SessionRow → Bool) (now : ℕ) (rows : List SessionRow)
    → is_revoked jti rows ≡ true
    → is_revoked jti (revoke_where select now rows) ≡ true
unfolding revoke_where find
is_revoked-revoke_where jti select now [] h = ground arith
is_revoked-revoke_where jti select now (row ∷ rows) h =
    ground (arith, is_revoked-revoke_where jti select now rows)

is_revoked-own :
    (jti : Text) (now : ℕ) (rows : List SessionRow)
    → is_some (find jti_key jti rows) ≡ true
    → is_revoked jti (revoke_where (λ row. row.jti == jti) now rows) ≡ true
unfolding revoke_where find
is_revoked-own jti now [] h = ground arith
is_revoked-own jti now (row ∷ rows) h =
    ground (arith, text_beq_iff row.jti jti, text_beq_iff jti row.jti, is_revoked-own jti now rows)

module _ (platform : Platform) where
  revoked_kept : (jti : Text) → Kept platform (λ n. Unit) (λ s. is_revoked jti s.sessions ≡ true)
  unfolding issue_nonce consume_nonce issue_session revoke_session find
  revoked_kept jti = record {
    users_kept = λ us n s p. p;
    issue_kept = λ w n now s q p. ground arith;
    consume_kept = λ w n now s p. ground arith;
    session_kept = λ w role j now s p. ground (arith, text_beq_iff jti j);
    revoke_kept = λ j now s p. is_revoked-revoke_where jti (λ row. row.jti == j) now s.sessions p;
  }

  revoked_inactive :
      (jti : Text) (now : ℕ) (s : AuthStore)
      → is_revoked jti s.sessions ≡ true
      → session_is_active jti now s ≡ false
  unfolding session_is_active
  revoked_inactive jti now s h = ground arith

  inactive_refused :
      (token : Text) (now : ℕ) (s : AuthStore) {claims : Claims} {user : UserRow}
      → platform.decode now token ≡ ok claims
      → session_is_active claims.jti now s ≡ false
      → (resolve_authenticated_user platform token now s).0 ≢ ok user
  unfolding resolve_authenticated_user
  inactive_refused token now s {claims} {user} d h e = ground (arith, d, h, e)

  empty_refused :
      (token : Text) (now : ℕ) (s : AuthStore) {claims : Claims} {user : UserRow}
      → platform.decode now token ≡ ok claims
      → (claims.jti == []) ≡ true
      → (resolve_authenticated_user platform token now s).0 ≢ ok user
  unfolding resolve_authenticated_user
  empty_refused token now s {claims} {user} d h e = ground (arith, d, h, e)

  active_present :
      (jti : Text) (now : ℕ) (s : AuthStore)
      → session_is_active jti now s ≡ true
      → is_some (find jti_key jti s.sessions) ≡ true
  unfolding session_is_active
  active_present jti now s h = ground arith

  logout_revokes :
      (header rest : Text) (now : ℕ) (s : AuthStore) {claims : Claims}
      → after_bearer header ≡ some rest
      → platform.decode now (strip rest) ≡ ok claims
      → (claims.jti == []) ≡ false
      → session_is_active claims.jti now s ≡ true
      → is_revoked claims.jti (post_logout platform header now s).1.sessions ≡ true
  unfolding post_logout revoke_claims revoke_session
  logout_revokes header rest now s {claims} h d j active =
      rw (h, post_logout, d, j)
        (is_revoked-own claims.jti now s.sessions (active_present claims.jti now s active))

  -- The session of a token that logs out while it is active never resolves to a user again: not
  -- after any further requests, at any time, by any token of the session.
  pub post_logout_final :
      (header rest : Text) (now : ℕ) (rs : List Request) (token : Text) (now' : ℕ) (s : AuthStore)
      {claims claims' : Claims} {user : UserRow}
      → AllDraw (λ n. Unit) rs
      → after_bearer header ≡ some rest
      → platform.decode now (strip rest) ≡ ok claims
      → session_is_active claims.jti now s ≡ true
      → platform.decode now' token ≡ ok claims'
      → claims'.jti ≡ claims.jti
      → (resolve_authenticated_user platform token now'
          (serve_all platform rs (post_logout platform header now s).1)).0
        ≢ ok user
  post_logout_final header rest now rs token now' s {claims} {claims'} {user} q h d active d' same
        e =
      elim (Bool-cases (claims.jti == [])) [
        | inl j ↦ empty_refused token now' after d' (rw same j) e
        | inr j ↦
            inactive_refused token now' after d' (revoked_inactive claims'.jti now' after (still j))
              e
      ]
    where
      after : AuthStore
      after = serve_all platform rs (post_logout platform header now s).1

      still : (claims.jti == []) ≡ false → is_revoked claims'.jti after.sessions ≡ true
      still j = rw same (
          serve_all_kept (revoked_kept claims.jti) rs _ q
            (logout_revokes header rest now s h d j active))

  -- A token that resolves to a user is backed: its session is in the table, unrevoked and in its
  -- time, and the user is the one whose wallet the token names, is active and has the token's role.
  pub resolve_authenticated_user_sound :
      (token : Text) (now : ℕ) (s : AuthStore) {user : UserRow}
      → (resolve_authenticated_user platform token now s).0 ≡ ok user
      → (claims : Claims) × (platform.decode now token ≡ ok claims)
        × (session_is_active claims.jti now s ≡ true)
        × ((get_user_by_wallet (normalize_address claims.sub) s).0 ≡ some user)
        × (user.active ≡ true)
        × (canonical_role user.role ≡ canonical_role claims.role)
  unfolding resolve_authenticated_user check_user
  resolve_authenticated_user_sound token now s {user} e =
      elim (Result-cases (platform.decode now token)) [
        | inl (claims, d) ↦ (
          claims,
          d,
          ground (arith, d, e),
          ground (arith, d, e),
          ground (arith, d, e),
          ground
              (arith, d, e, text_beq_iff (canonical_role user.role) (canonical_role claims.role)),
        )
        | inr (x, d) ↦ ground (arith, d, e)
      ]

  resolves :
      (token : Text) (now : ℕ) (s : AuthStore) {claims : Claims} {user : UserRow}
      → platform.decode now token ≡ ok claims
      → (claims.jti == []) ≡ false
      → (normalize_address claims.sub == []) ≡ false
      → session_is_active claims.jti now s ≡ true
      → (get_user_by_wallet (normalize_address claims.sub) s).0 ≡ some user
      → user.active ≡ true
      → canonical_role user.role ≡ canonical_role claims.role
      → (resolve_authenticated_user platform token now s).0 ≡ ok user
  unfolding resolve_authenticated_user check_user
  resolves token now s {claims} {user} d j w active found enabled role =
      rw (d, resolve_authenticated_user, j, w, active, found)
        (ground (
          arith,
          enabled,
          role,
          text_beq_iff (canonical_role user.role) (canonical_role claims.role),
        ))

  abbrev claims_for : Text → Text → Text → ℕ → Claims
  claims_for w role jti now = record {
    sub = normalize_address w;
    role = canonical_role role;
    jti = jti;
    iat = now;
    exp = now + platform.session_ttl_hours * 3600;
  }

  issued_facts :
      (w role jti : Text) (now later : ℕ) (s : AuthStore) {session : IssuedSession}
      → (issue_session platform w role jti now s).0 ≡ ok session
      → now ≤ later
      → later < now + platform.session_ttl_hours * 3600
      → (session.token ≡ platform.encode (claims_for w role jti now))
        × (session_is_active jti later (issue_session platform w role jti now s).1 ≡ true)
        × ((v : Text)
            → (get_user_by_wallet
                (normalize_address v)
                (issue_session platform w role jti now s).1).0
              ≡ (get_user_by_wallet v s).0)
  unfolding issue_session session_is_active find get_user_by_wallet
  issued_facts w role jti now later s {session} issued le lt = (
    ground (arith, issued),
    ground (arith, issued, le, lt, text_beq_iff jti jti),
    λ v. ground (arith, issued, normalize_address_again v),
  )

  -- A session just issued for the wallet and role of an active user resolves to that user until it
  -- expires, if the token codec reads back what it wrote.
  pub issue_session_resolves :
      (w role jti : Text) (now later : ℕ) (s : AuthStore) {session : IssuedSession} {user : UserRow}
      → ((c : Claims)
          → c.iat ≤ later
          → later < c.exp
          → platform.decode later (platform.encode c) ≡ ok c)
      → (jti == []) ≡ false
      → (normalize_address w == []) ≡ false
      → now ≤ later
      → later < now + platform.session_ttl_hours * 3600
      → (issue_session platform w role jti now s).0 ≡ ok session
      → (get_user_by_wallet w s).0 ≡ some user
      → user.active ≡ true
      → canonical_role user.role ≡ canonical_role role
      → (resolve_authenticated_user platform session.token later
          (issue_session platform w role jti now s).1).0
        ≡ ok user
  issue_session_resolves w role jti now later s {session} {user} codec some_jti some_wallet le lt
        issued found active same =
      let (token, live, kept) = issued_facts w role jti now later s issued le lt in
      rw token (
        resolves (platform.encode (claims_for w role jti now)) later
          (issue_session platform w role jti now s).1 {claims = claims_for w role jti now}
          {user = user} (codec (claims_for w role jti now) le lt) some_jti
          (rw (normalize_address_again w) some_wallet) live
          (rw (normalize_address_again w) (kept w ∙ found)) active
          (rw (canonical_role_again role) same))
