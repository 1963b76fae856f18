-- ===== src/Auth/Canonical.antt =====
-- Normalised addresses and canonical roles stay as they are when they are read again.
use web3_real_estate.Base.{◌≡◌, refl, Bool-cases, inl, inr, ◌==◌}
use web3_real_estate.Base.Text.{
  Text, text_eq, text_beq, lower, lower_char, strip, strip_left, strip_right, is_space,
}
use web3_real_estate.Base.Text.Normal.{lower_again, strip-lower, strip_again}
use web3_real_estate.Auth.Address.{normalize_address, canonical_role, admin, property_owner}

lower-strip_again : (t : Text) → lower (strip (lower (strip t))) ≡ lower (strip t)
lower-strip_again t = rw (strip-lower (strip t), strip_again t, lower_again (strip t)) refl

pub normalize_address_again :
    (t : Text) → normalize_address (normalize_address t) ≡ normalize_address t
unfolding normalize_address
normalize_address_again t = lower-strip_again t

property_owner_again : lower (strip property_owner) ≡ property_owner
unfolding lower lower_char strip strip_left strip_right is_space
property_owner_again = refl

pub canonical_role_again :
    (role : Text) → canonical_role (canonical_role role) ≡ canonical_role role
unfolding canonical_role text_beq
canonical_role_again role = elim (Bool-cases (lower (strip role) == admin)) [
  | inl e ↦ rw (e, property_owner_again) refl
  | inr e ↦ rw (e, lower-strip_again role, e) refl
]
