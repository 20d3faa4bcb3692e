-- ===== src/ReportManager/Permitted.antt =====
-- Which location an app is permitted to see.
use gitee_oh_base_location.Base.{ℕ, Option, arith, if◌then◌else◌, none, not, some, ℤ, ◌&&◌, ◌≡◌}
use gitee_oh_base_location.Common.{
  PermissionLevel, permission_accurate, permission_approximately, permission_invalid,
  check_location_permission, check_approximately_permission, check_background_permission,
  get_permission_level,
}
use gitee_oh_base_location.Env.{Env, is_app_background}
use gitee_oh_base_location.Location.{Location}
use gitee_oh_base_location.ReportManager.{
  DoubleOps, approximately_location, get_bundle_name, get_permitted_location,
}

module _ {D : Type 0} (ops : DoubleOps D) where
  -- By the level of the app's permission: with none it sees nothing; with the approximate one alone a
  -- shifted location, in the background too, whether or not it may locate there; with the accurate
  -- one the location itself, in the background only if it may locate there.
  abbrev pub permitted_by : Env → D → ℤ → ℕ → ℕ → Location D → PermissionLevel → Option (Location D)
  permitted_by env offset uid token first l permission_invalid = none
  permitted_by env offset uid token first l permission_approximately =
      some (approximately_location ops offset l)
  permitted_by env offset uid token first l permission_accurate =
      if is_app_background env (get_bundle_name env uid)
        && not (check_background_permission env.tokens token first)
      then none
      else some l

  -- GetPermittedLocation gives an app without a permission nothing. It gives an app with the
  -- approximate permission alone a shifted location, in the background too, whether or not it may
  -- locate there. It gives an app with the accurate permission the location itself, and in the
  -- background only if the app may locate there.
  pub get_permitted_location-get_permission_level :
      (env : Env) (offset : D) (uid : ℤ) (token first : ℕ) (l : Location D)
      → get_permitted_location ops env offset uid token first (some l)
        ≡ permitted_by env offset uid token first l (get_permission_level env.tokens token first)
  unfolding get_permitted_location get_permission_level check_location_permission
      check_approximately_permission
  get_permitted_location-get_permission_level env offset uid token first l = ground arith
