-- ===== src/Common/Permission.antt =====
-- Permission levels and names of abilities.
use text.Mathlib.TextEquality.{eq_iff}
use gitee_oh_base_location.Base.{ℕ, String, arith, false, some, true, ◌↔◌, ◌≡◌}
use gitee_oh_base_location.Common.{
  AccessTokens, permission_invalid, permission_approximately, permission_accurate, check_permission,
  check_location_permission, check_approximately_permission, get_permission_level, SystemAbility,
  ability_convert_to_id, token_invalid,
}

-- The level is "accurate" exactly if the location permission is held, "approximate" exactly if only
-- the approximate one is, and "invalid" exactly if neither is.
pub get_permission_level_iff :
    (kit : AccessTokens) (token first : ℕ)
    → ((get_permission_level kit token first ≡ permission_accurate)
        ↔ (check_location_permission kit token first ≡ true))
      × ((get_permission_level kit token first ≡ permission_approximately) ↔ (
          (check_location_permission kit token first ≡ false)
          × (check_approximately_permission kit token first ≡ true)))
      × ((get_permission_level kit token first ≡ permission_invalid) ↔ (
          (check_location_permission kit token first ≡ false)
          × (check_approximately_permission kit token first ≡ false)))
unfolding get_permission_level check_location_permission check_approximately_permission
get_permission_level_iff kit token first = ground arith

-- A caller with an invalid token and no first caller holds no permission, whatever the token service
-- says of it.
pub check_permission_invalid :
    (kit : AccessTokens) (permission : String) (token : ℕ)
    → kit.token_type token ≡ token_invalid
    → check_permission kit permission token 0 ≡ false
unfolding check_permission
check_permission_invalid kit permission token h = ground arith

-- No two abilities share a system ability.
pub ability_convert_to_id_injective :
    (a b : String) (id : SystemAbility)
    → ability_convert_to_id a ≡ some id
    → ability_convert_to_id b ≡ some id
    → a ≡ b
unfolding ability_convert_to_id
ability_convert_to_id_injective a b id ha hb = ground (
  arith,
  eq_iff "gps" a,
  eq_iff "network" a,
  eq_iff "passive" a,
  eq_iff "geo" a,
  eq_iff "gps" b,
  eq_iff "network" b,
  eq_iff "passive" b,
  eq_iff "geo" b,
)
