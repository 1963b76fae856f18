-- ===== src/Auth/Users.antt =====
-- Users: `_next_display_id`, `get_user_by_wallet`, `update_user_full_name`, `register_user` and
-- `touch_last_login`.
use web3_real_estate.Base.{
  ℕ, ◌+◌, Bool, true, false, ◌&&◌, ◌||◌, not, leb, if◌then◌else◌, eqb, Option, none, some, is_some,
  get_or, List, [], ◌∷◌, ◌==◌, ok, err,
}
use web3_real_estate.Base.Attempt.{Attempt}
use web3_real_estate.Base.Text.{Text, text_eq, lower, strip}
use web3_real_estate.Base.Keyed.{find}
use web3_real_estate.Auth.Address.{
  normalize_address, is_valid_eth_address, canonical_role, is_valid_role, role_prefix, RolePrefix,
  clean_full_name, admin, property_owner,
}
use web3_real_estate.Auth.Tables.{DisplayId, UserRow, AuthStore, AuthError}

abbrev pub wallet_key : UserRow → Text
wallet_key r = lower r.wallet_address

unfoldable pub same_prefix : RolePrefix → RolePrefix → Bool
same_prefix RolePrefix.adm RolePrefix.adm = true
same_prefix RolePrefix.ten RolePrefix.ten = true
same_prefix RolePrefix.inv RolePrefix.inv = true
same_prefix a b = false

-- `SELECT COALESCE(MAX(number), 0) ... WHERE display_id LIKE 'PREFIX-%'`
unfoldable pub max_number : RolePrefix → List UserRow → ℕ
max_number prefix [] = 0
max_number prefix (row ∷ rows) =
    let rest = max_number prefix rows in
    elim row.display_id [
      | none ↦ rest
      | some d ↦ if same_prefix d.prefix prefix && leb rest d.number then d.number else rest
    ]

unfoldable pub next_display_id : List UserRow → Text → DisplayId
next_display_id users role =
    let prefix = role_prefix role in
    record { prefix = prefix; number = max_number prefix users + 1 }

-- `UPDATE users SET ... WHERE id = ...`
unfoldable pub update_user : (UserRow → UserRow) → ℕ → List UserRow → List UserRow
update_user f id [] = []
update_user f id (row ∷ rows) = (if eqb row.id id then f row else row) ∷ update_user f id rows

-- A stored role of `admin` becomes `property_owner`.
unfoldable pub migrate_role : UserRow → UserRow
migrate_role row =
    if lower (strip row.role) == admin then record row { role = property_owner } else row

-- A missing display id or profile role is filled in.
unfoldable pub fill_profile : List UserRow → UserRow → UserRow
fill_profile users row =
    if is_some row.display_id && is_some row.profile_role then row else record row {
      display_id = some (get_or row.display_id (next_display_id users (canonical_role row.role)));
      profile_role = some (get_or row.profile_role (canonical_role row.role));
    }

unfoldable pub live_row : List UserRow → UserRow → UserRow
live_row users row = fill_profile users (migrate_role row)

unfoldable pub get_user_by_wallet : Text → AuthStore → Option UserRow × AuthStore
get_user_by_wallet wallet_address s =
    elim (find wallet_key (normalize_address wallet_address) s.users) [
      | none ↦ (none, s)
      | some row ↦
          let live = live_row s.users row in
          (
            some (record live { role = canonical_role live.role }),
            record s { users = update_user (λ old. live) row.id s.users },
          )
    ]

-- `UPDATE users SET ... WHERE LOWER(wallet_address) = ...`
unfoldable pub update_wallet : (UserRow → UserRow) → Text → List UserRow → List UserRow
update_wallet f wallet [] = []
update_wallet f wallet (row ∷ rows) =
    (if wallet_key row == wallet then f row else row) ∷ update_wallet f wallet rows

unfoldable pub update_user_full_name : Text → Text → Attempt AuthError AuthStore UserRow
update_user_full_name wallet_address full_name s = elim (clean_full_name full_name) [
  | none ↦ (err AuthError.name_required, s)
  | some cleaned ↦
      let wallet = normalize_address wallet_address in
      if not (is_some (find wallet_key wallet s.users))
      then (err AuthError.user_not_found, s)
      else let s' = record s {
        users = update_wallet (λ row. record row { full_name = some cleaned }) wallet s.users;
      } in
        elim (get_user_by_wallet wallet_address s').0 [
          | none ↦ (err AuthError.user_not_found, (get_user_by_wallet wallet_address s').1)
          | some user ↦ (ok user, (get_user_by_wallet wallet_address s').1)
        ]
]

unfoldable pub email_taken : Option Text → List UserRow → Bool
email_taken none users = false
email_taken (some email) [] = false
email_taken (some email) (row ∷ rows) = elim row.email [
  | none ↦ email_taken (some email) rows
  | some e ↦ e == email || email_taken (some email) rows
]

unfoldable pub new_user : AuthStore → Text → Text → Option Text → Text → ℕ → UserRow
new_user s wallet_address role email full_name now = record {
  id = s.next_user;
  wallet_address = normalize_address wallet_address;
  role = role;
  email = email;
  active = true;
  full_name = some full_name;
  display_id = some (next_display_id s.users (canonical_role role));
  profile_role = some (canonical_role role);
  last_login = some now;
}

-- An email that another user has violates the unique constraint, and the insert is rolled back.
unfoldable pub insert_user : UserRow → Attempt AuthError AuthStore UserRow
insert_user row s = if email_taken row.email s.users then (err AuthError.database_error, s) else (
  ok (record row { role = canonical_role row.role }),
  record s { users = row ∷ s.users; next_user = s.next_user + 1 },
)

unfoldable pub register_user :
    Text → Text → Option Text → Text → ℕ → Attempt AuthError AuthStore UserRow
register_user wallet_address role email full_name now s =
    if not (is_valid_role role)
    then (err AuthError.invalid_role, s)
    else if not (is_valid_eth_address wallet_address)
    then (err AuthError.invalid_wallet, s)
    else elim (clean_full_name full_name) [
      | none ↦ (err AuthError.name_required, s)
      | some cleaned ↦
          if is_some (get_user_by_wallet wallet_address s).0
          then (err AuthError.already_registered, (get_user_by_wallet wallet_address s).1)
          else insert_user (new_user s wallet_address role email cleaned now) s
    ]

unfoldable pub touch_last_login : Text → ℕ → AuthStore → AuthStore
touch_last_login wallet_address now s = record s {
  users =
      update_wallet (λ row. record row { last_login = some now }) (normalize_address wallet_address)
        s.users;
}
