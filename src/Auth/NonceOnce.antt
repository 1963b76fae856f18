-- ===== src/Auth/NonceOnce.antt =====
-- The life of a nonce over a run of requests (`_consume_nonce` in backend/services/auth.py).
use web3_real_estate.Base.{
  ℕ, ◌≡◌, ◌≢◌, refl, Option, none, some, Bool, true, false, List, [], ◌∷◌, arith, Result, ok, err,
  Bool-cases, Option-cases, Result-cases, inl, inr, if◌then◌else◌, is_some, not, eqb, ◌==◌, ltb,
}
use web3_real_estate.Base.Text.{Text, text_eq, text_beq_iff, lower}
use web3_real_estate.Base.Keyed.{find, IsUnique}
use web3_real_estate.Auth.Tables.{NonceRow, AuthStore, AuthError, Platform, Message}
use web3_real_estate.Auth.Address.{normalize_address}
use web3_real_estate.Auth.Nonces.{
  is_stale, purge, mark_used, issue_nonce, consume_nonce, verify_signature, check_message,
}
use web3_real_estate.Auth.Sessions.{issue_session, revoke_session}
use web3_real_estate.Auth.Routes.{Request, serve_all}
use web3_real_estate.Auth.Kept.{AllDraw, Kept, serve_all_kept}

abbrev nonce_key : NonceRow → Text
nonce_key r = r.nonce

-- Every row of the nonce is marked used.
abbrev pub IsSpent : Text → List NonceRow → Type 0
IsSpent n [] = Unit
IsSpent n (row ∷ rows) = (row.nonce ≡ n → is_some row.used_at ≡ true) × IsSpent n rows

IsSpent-purge :
    (n w : Text) (now : ℕ) (rows : List NonceRow) → IsSpent n rows → IsSpent n (purge w now rows)
unfolding purge
IsSpent-purge n w now [] h = tt
IsSpent-purge n w now (row ∷ rows) h = elim (Bool-cases (is_stale w now row)) [
  | inl e ↦ rw e (IsSpent-purge n w now rows h.1)
  | inr e ↦ rw e (h.0, IsSpent-purge n w now rows h.1)
]

IsSpent-mark_used :
    (n : Text) (id now : ℕ) (rows : List NonceRow)
    → IsSpent n rows
    → IsSpent n (mark_used id now rows)
unfolding mark_used
IsSpent-mark_used n id now [] h = tt
IsSpent-mark_used n id now (row ∷ rows) h = elim (Bool-cases (eqb row.id id)) [
  | inl e ↦ rw e ((λ _. refl), IsSpent-mark_used n id now rows h.1)
  | inr e ↦ rw e (h.0, IsSpent-mark_used n id now rows h.1)
]

find_spent :
    (n : Text) (rows : List NonceRow) (row : NonceRow)
    → IsSpent n rows
    → find nonce_key n rows ≡ some row
    → is_some row.used_at ≡ true
unfolding find
find_spent n [] row h e = ground arith
find_spent n (x ∷ rows) row h e = ground (arith, text_beq_iff n x.nonce, find_spent n rows row)

-- A row that is not found is not there to be unused.
IsSpent-none : (n : Text) (rows : List NonceRow) → find nonce_key n rows ≡ none → IsSpent n rows
unfolding find
IsSpent-none n [] h = tt
IsSpent-none n (x ∷ rows) h = ground (arith, text_beq_iff n x.nonce, IsSpent-none n rows)

-- Marking the row that was found marks every row of the nonce.
IsSpent-marked :
    (n : Text) (now : ℕ) (rows : List NonceRow) (row : NonceRow)
    → IsUnique nonce_key rows
    → find nonce_key n rows ≡ some row
    → IsSpent n (mark_used row.id now rows)
unfolding find mark_used
IsSpent-marked n now [] row u e = ground arith
IsSpent-marked n now (x ∷ rows) row u e = ground (
  arith,
  text_beq_iff n x.nonce,
  IsSpent-marked n now rows row,
  IsSpent-none n rows,
  IsSpent-mark_used n row.id now rows,
)

find-purge-none :
    (n w : Text) (now : ℕ) (rows : List NonceRow)
    → find nonce_key n rows ≡ none
    → find nonce_key n (purge w now rows) ≡ none
unfolding find purge
find-purge-none n w now [] h = refl
find-purge-none n w now (x ∷ rows) h = ground (arith, find-purge-none n w now rows)

IsUnique-purge :
    (w : Text) (now : ℕ) (rows : List NonceRow)
    → IsUnique nonce_key rows
    → IsUnique nonce_key (purge w now rows)
unfolding purge
IsUnique-purge w now [] u = tt
IsUnique-purge w now (x ∷ rows) u =
    ground (arith, IsUnique-purge w now rows, find-purge-none x.nonce w now rows)

find-mark_used-none :
    (n : Text) (id now : ℕ) (rows : List NonceRow)
    → find nonce_key n rows ≡ none
    → find nonce_key n (mark_used id now rows) ≡ none
unfolding find mark_used
find-mark_used-none n id now [] h = refl
find-mark_used-none n id now (x ∷ rows) h = ground (arith, find-mark_used-none n id now rows)

IsUnique-mark_used :
    (id now : ℕ) (rows : List NonceRow)
    → IsUnique nonce_key rows
    → IsUnique nonce_key (mark_used id now rows)
unfolding mark_used
IsUnique-mark_used id now [] u = tt
IsUnique-mark_used id now (x ∷ rows) u =
    ground (arith, IsUnique-mark_used id now rows, find-mark_used-none x.nonce id now rows)

module _ (platform : Platform) where
  -- A nonce is consumed by marking its row, or the nonces stay.
  consume_writes :
      (P : List NonceRow → Type 0) (w n : Text) (now : ℕ) (s : AuthStore)
      → ((row : NonceRow)
          → find nonce_key n s.nonces ≡ some row
          → P (mark_used row.id now s.nonces))
      → P s.nonces
      → P (consume_nonce platform w n now s).1.nonces
  unfolding consume_nonce
  consume_writes P w n now s marked p = elim (Option-cases (find nonce_key n s.nonces)) [
    | inl e ↦ rw (e, consume_nonce) p
    | inr (row, e) ↦
        rw (e, consume_nonce)
          (rejected (not (lower row.wallet_address == normalize_address w)) AuthError.unknown_nonce
            (if is_some row.used_at
              then (err AuthError.nonce_used, s)
              else if ltb row.expires_at now
              then (err AuthError.nonce_expired, s)
              else (ok row.message, record s { nonces = mark_used row.id now s.nonces }))
            (rejected (is_some row.used_at) AuthError.nonce_used
              (if ltb row.expires_at now
                then (err AuthError.nonce_expired, s)
                else (ok row.message, record s { nonces = mark_used row.id now s.nonces }))
              (rejected (ltb row.expires_at now) AuthError.nonce_expired
                (ok row.message, record s { nonces = mark_used row.id now s.nonces })
                (marked row e))))
  ]
    where
      rejected :
          (b : Bool) (e : AuthError) (x : Result AuthError (Option Message) × AuthStore)
          → P x.1.nonces
          → P (if b then (err e, s) else x).1.nonces
      rejected true e x q = p
      rejected false e x q = q

  unique_kept : Kept platform (λ n. Unit) (λ s. IsUnique nonce_key s.nonces)
  unfolding issue_nonce issue_session revoke_session
  unique_kept = record {
    users_kept = λ us n s p. p;
    issue_kept = λ w n now s q p. ground (
      arith,
      IsUnique-purge (normalize_address w) now s.nonces,
      Option-cases (find nonce_key n (purge (normalize_address w) now s.nonces)),
    );
    consume_kept = λ w n now s p.
        consume_writes (IsUnique nonce_key) w n now s
          (λ row e. IsUnique-mark_used row.id now s.nonces p) p;
    session_kept = λ w role jti now s p. ground arith;
    revoke_kept = λ jti now s p. p;
  }

  IsSpent-kept : (n : Text) → Kept platform (λ m. m ≢ n) (λ s. IsSpent n s.nonces)
  unfolding issue_nonce issue_session revoke_session
  IsSpent-kept n = record {
    users_kept = λ us m s p. p;
    issue_kept =
        λ w m now s q p. ground (arith, IsSpent-purge n (normalize_address w) now s.nonces);
    consume_kept = λ w m now s p.
        consume_writes (IsSpent n) w m now s (λ row e. IsSpent-mark_used n row.id now s.nonces p) p;
    session_kept = λ w role jti now s p. ground arith;
    revoke_kept = λ jti now s p. p;
  }

  consume_spends :
      (w n : Text) (now : ℕ) (s : AuthStore) {m : Option Message}
      → IsUnique nonce_key s.nonces
      → (consume_nonce platform w n now s).0 ≡ ok m
      → IsSpent n (consume_nonce platform w n now s).1.nonces
  unfolding consume_nonce
  consume_spends w n now s {m} u e = elim (Option-cases (find nonce_key n s.nonces)) [
    | inl f ↦ ground (arith, f, e)
    | inr (row, f) ↦ ground (arith, f, e, IsSpent-marked n now s.nonces row u f)
  ]

  spent_refused :
      (w n : Text) (now : ℕ) (s : AuthStore) {m : Option Message}
      → IsSpent n s.nonces
      → (consume_nonce platform w n now s).0 ≢ ok m
  unfolding consume_nonce
  spent_refused w n now s {m} h e = elim (Option-cases (find nonce_key n s.nonces)) [
    | inl f ↦ ground (arith, f, e)
    | inr (row, f) ↦ ground (arith, f, e, find_spent n s.nonces row h f)
  ]

  verify_consumes :
      (w sig n : Text) (now : ℕ) (s : AuthStore) {a : Text}
      → (verify_signature platform w sig n now s).0 ≡ ok a
      → (m : Option Message) × ((consume_nonce platform w n now s).0 ≡ ok m)
        × ((verify_signature platform w sig n now s).1 ≡ (consume_nonce platform w n now s).1)
  unfolding verify_signature check_message
  verify_consumes w sig n now s {a} e = elim (Result-cases (consume_nonce platform w n now s).0) [
    | inl (m, f) ↦ (m, f, ground (arith, e, f))
    | inr (x, f) ↦ ground (arith, e, f)
  ]

  -- In a table whose nonces are unique, a nonce that a signature was accepted for is not accepted
  -- again, for any wallet, signature and time, after any requests that do not draw the nonce anew.
  pub verify_signature_once :
      (w sig n : Text) (now : ℕ) (rs : List Request) (w' sig' : Text) (now' : ℕ) (s : AuthStore)
      {a b : Text}
      → IsUnique nonce_key s.nonces
      → AllDraw (λ m. m ≢ n) rs
      → (verify_signature platform w sig n now s).0 ≡ ok a
      → (verify_signature platform w' sig' n now'
          (serve_all platform rs (verify_signature platform w sig n now s).1)).0
        ≢ ok b
  verify_signature_once w sig n now rs w' sig' now' s {a} {b} u q e f =
      let (m, consumed, same) = verify_consumes w sig n now s e in
      let spent : IsSpent n (verify_signature platform w sig n now s).1.nonces =
        rw same (consume_spends w n now s u consumed) in
      let after =
        serve_all_kept (IsSpent-kept n) rs (verify_signature platform w sig n now s).1 q spent in
      let (m', again, _) = verify_consumes w' sig' n now' _ f in
      spent_refused w' n now' _ after again
