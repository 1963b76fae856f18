-- ===== src/Tests/Auth.antt =====
-- Runs of the sign-in theorems, with a token codec that reads back what it wrote.
use web3_real_estate.Base.{
  ℕ, zero, suc, ◌≤◌, ◌<◌, ◌≡◌, ◌≢◌, refl, leb, ltb, if◌then◌else◌, none, some, List, [], ◌∷◌, ◌++◌,
  arith, Result, ok, err, true, false, ◌==◌,
}
use web3_real_estate.Base.Text.{
  Text, text_eq, text_beq, length, take, is_space, lower_char, lower, strip, strip_left,
  strip_right,
}
use web3_real_estate.Base.Keyed.{find, IsUnique}
use web3_real_estate.Auth.Address.{
  normalize_address, is_valid_eth_address, has_hex_prefix, is_hex_number, is_hex_digit,
  canonical_role, is_valid_role, investor, RolePrefix,
}
use web3_real_estate.Auth.Tables.{
  NonceRow, SessionRow, UserRow, AuthStore, AuthError, Platform, Claims,
}
use web3_real_estate.Auth.Nonces.{
  verify_signature, consume_nonce, check_message, check_signer, mark_used,
}
use web3_real_estate.Auth.Users.{get_user_by_wallet, live_row, migrate_role, fill_profile}
use web3_real_estate.Auth.Sessions.{
  IssuedSession, issue_session, session_is_active, check_user, resolve_authenticated_user,
}
use web3_real_estate.Auth.Routes.{Request, serve_all, post_logout, after_bearer}
use web3_real_estate.Auth.NonceOnce.{verify_signature_once}
use web3_real_estate.Auth.Revoked.{
  post_logout_final, resolve_authenticated_user_sound, issue_session_resolves,
}

unfoldable drop : ℕ → Text → Text
drop zero t = t
drop (suc n) [] = []
drop (suc n) (c ∷ cs) = drop n cs

take-length : (a b : Text) → take (length a) (a ++ b) ≡ a
unfolding take length
take-length [] b = take_zero b
  where
    take_zero : (t : Text) → take 0 t ≡ []
    take_zero t = refl
take-length (c ∷ cs) b = ground (arith, take-length cs b)

drop-length : (a b : Text) → drop (length a) (a ++ b) ≡ b
unfolding drop length
drop-length [] b = refl
drop-length (c ∷ cs) b = ground (arith, drop-length cs b)

unfoldable encode_claims : Claims → Text
encode_claims c = c.iat ∷ c.exp ∷ length c.sub ∷ length c.role ∷ (c.sub ++ (c.role ++ c.jti))

unfoldable decode_claims : ℕ → Text → Result AuthError Claims
decode_claims now (iat ∷ exp ∷ n ∷ m ∷ rest) =
    if leb exp now
    then err AuthError.session_expired
    else if ltb now iat
    then err AuthError.invalid_token
    else ok (record {
      sub = take n rest;
      role = take m (drop n rest);
      jti = drop m (drop n rest);
      iat = iat;
      exp = exp;
    })
decode_claims now token = err AuthError.invalid_token

codec_law :
    (later : ℕ) (c : Claims)
    → c.iat ≤ later
    → later < c.exp
    → decode_claims later (encode_claims c) ≡ ok c
unfolding encode_claims decode_claims
codec_law later c h k = ground (
  arith,
  h,
  k,
  take-length c.sub (c.role ++ c.jti),
  drop-length c.sub (c.role ++ c.jti),
  take-length c.role c.jti,
  drop-length c.role c.jti,
)

abbrev platform : Platform
platform = record {
  nonce_ttl_seconds = 300;
  session_ttl_hours = 1;
  recover_message = λ message signature. some message.wallet_address;
  encode = encode_claims;
  decode = decode_claims;
}

abbrev repeat : ℕ → ℕ → Text
repeat zero c = []
repeat (suc n) c = c ∷ repeat n c

-- `0x11...1`
abbrev wallet : Text
wallet = 48 ∷ 120 ∷ repeat 40 49

abbrev alice : UserRow
alice = record {
  id = 1;
  wallet_address = wallet;
  role = investor;
  email = none;
  active = true;
  full_name = some (65 ∷ []);
  display_id = some (record { prefix = RolePrefix.inv; number = 1 });
  profile_role = some investor;
  last_login = none;
}

abbrev issued : NonceRow
issued = record {
  id = 1;
  wallet_address = wallet;
  nonce = 90 ∷ [];
  message = some (record { wallet_address = wallet; nonce = 90 ∷ []; issued_at = 100 });
  expires_at = 400;
  used_at = none;
}

abbrev session : SessionRow
session = record {
  jti = 74 ∷ [];
  wallet_address = wallet;
  role = investor;
  issued_at = 50;
  expires_at = 3650;
  revoked_at = none;
}

abbrev store : AuthStore
store = record {
  nonces = issued ∷ [];
  sessions = session ∷ [];
  users = alice ∷ [];
  next_nonce = 2;
  next_user = 2;
}

store_unique : IsUnique (λ (r : NonceRow). r.nonce) store.nonces
unfolding find
store_unique = (refl, tt)

verified : (verify_signature platform wallet (1 ∷ []) (90 ∷ []) 200 store).0 ≡ ok wallet
unfolding verify_signature consume_nonce check_message check_signer mark_used find text_beq
    normalize_address is_valid_eth_address has_hex_prefix is_hex_number is_hex_digit length is_space
    lower_char lower strip strip_left strip_right
verified = refl

abbrev other_requests : List Request
other_requests =
    Request.nonce_request wallet (91 ∷ []) 210
    ∷ Request.verify_request wallet (1 ∷ []) (91 ∷ []) (75 ∷ []) 220
    ∷ []

abbrev old_nonce : Text
old_nonce = 90 ∷ []

abbrev new_nonce : Text
new_nonce = 91 ∷ []

other_drawn : new_nonce ≢ old_nonce
other_drawn e = ground (arith, e)

verify_signature_once_example :
    (verify_signature platform wallet (2 ∷ []) (90 ∷ []) 230 (
      serve_all platform other_requests
        (verify_signature platform wallet (1 ∷ []) (90 ∷ []) 200 store).1)).0
    ≢ ok wallet
verify_signature_once_example =
    verify_signature_once platform wallet (1 ∷ []) (90 ∷ []) 200 other_requests wallet (2 ∷ []) 230
      store store_unique (other_drawn, (tt, tt)) verified

abbrev claims : Claims
claims = record { sub = wallet; role = investor; jti = 74 ∷ []; iat = 50; exp = 3650 }

abbrev token : Text
token = encode_claims claims

-- `Bearer ` and the token
abbrev header : Text
header = 66 ∷ 101 ∷ 97 ∷ 114 ∷ 101 ∷ 114 ∷ 32 ∷ token

header_token : after_bearer header ≡ some token
unfolding after_bearer lower lower_char text_beq
header_token = refl

token_read : platform.decode 300 (strip token) ≡ ok claims
unfolding encode_claims decode_claims length take drop strip strip_left strip_right is_space
token_read = refl

token_read_later : platform.decode 900 token ≡ ok claims
token_read_later = codec_law 900 claims (omega arith) (omega arith)

session_live : session_is_active (74 ∷ []) 300 store ≡ true
unfolding session_is_active find text_beq
session_live = refl

post_logout_final_example :
    (resolve_authenticated_user platform token 900
      (serve_all platform other_requests (post_logout platform header 300 store).1)).0
    ≢ ok alice
post_logout_final_example =
    post_logout_final platform header token 300 other_requests token 900 store (tt, (tt, tt))
      header_token token_read session_live token_read_later refl

resolved : (resolve_authenticated_user platform token 300 store).0 ≡ ok alice
unfolding resolve_authenticated_user session_is_active check_user get_user_by_wallet live_row
    migrate_role fill_profile find text_beq normalize_address canonical_role lower_char lower
    encode_claims decode_claims length take drop strip strip_left strip_right is_space
resolved = refl

resolve_authenticated_user_sound_example :
    (c : Claims) × (platform.decode 300 token ≡ ok c)
    × (session_is_active c.jti 300 store ≡ true)
    × ((get_user_by_wallet (normalize_address c.sub) store).0 ≡ some alice)
    × (true ≡ true)
    × (canonical_role investor ≡ canonical_role c.role)
resolve_authenticated_user_sound_example =
    resolve_authenticated_user_sound platform token 300 store resolved

abbrev new_session : IssuedSession
new_session = record {
  token =
      encode_claims
        (record { sub = wallet; role = investor; jti = 76 ∷ []; iat = 100; exp = 3700 });
  jti = 76 ∷ [];
  role = investor;
  wallet_address = wallet;
  expires_at = 3700;
}

session_issued : (issue_session platform wallet investor (76 ∷ []) 100 store).0 ≡ ok new_session
unfolding issue_session find text_beq normalize_address canonical_role is_valid_role lower_char
    lower strip strip_left strip_right is_space
session_issued = refl

alice_found : (get_user_by_wallet wallet store).0 ≡ some alice
unfolding get_user_by_wallet live_row migrate_role fill_profile find text_beq normalize_address
    canonical_role lower_char lower strip strip_left strip_right is_space
alice_found = refl

abbrev new_jti : Text
new_jti = 76 ∷ []

jti_not_empty : (new_jti == []) ≡ false
unfolding text_beq
jti_not_empty = refl

wallet_not_empty : (normalize_address wallet == []) ≡ false
unfolding text_beq normalize_address lower_char lower strip strip_left strip_right is_space
wallet_not_empty = refl

issue_session_resolves_example :
    (resolve_authenticated_user platform new_session.token 200
      (issue_session platform wallet investor (76 ∷ []) 100 store).1).0
    ≡ ok alice
issue_session_resolves_example =
    issue_session_resolves platform wallet investor (76 ∷ []) 100 200 store (codec_law 200)
      jti_not_empty wallet_not_empty (omega arith) (omega arith) session_issued alice_found refl
      refl
