-- ===== src/Common.antt =====
-- frameworks/location_common/common/source/common_utils.cpp: permissions, names of abilities and the
-- countdown latch. `AccessTokenKit` and `TokenIdKit` belong to the system: they are parameters.
mod Tests
pub mod Permission
use gitee_oh_base_location.Base.{
  ℕ, Bool, Option, String, false, if◌then◌else◌, int_eq, nat_eq, none, not, some, string_eq, true,
  ◌&&◌, ◌==◌,
}

pub data TokenType : Type 0 where
  token_invalid token_hap token_native token_shell : TokenType

-- What the access token service answers.
pub record AccessTokens : Type 0 where
  pub token_type : ℕ → TokenType
  pub verify : ℕ → String → Bool
  pub verify_first : ℕ → ℕ → String → Bool
  pub is_system_app : ℕ → Bool

abbrev pub access_location : String
access_location = "ohos.permission.LOCATION"

abbrev pub access_approximately_location : String
access_approximately_location = "ohos.permission.APPROXIMATELY_LOCATION"

abbrev pub access_background_location : String
access_background_location = "ohos.permission.LOCATION_IN_BACKGROUND"

abbrev pub manage_secure_settings : String
manage_secure_settings = "ohos.permission.MANAGE_SECURE_SETTINGS"

-- `VerifyAccessToken` answers `true` for PERMISSION_GRANTED.
unfoldable pub check_permission : AccessTokens → String → ℕ → ℕ → Bool
check_permission kit permission caller_token token_first_caller =
    if token_first_caller == 0
    then elim (kit.token_type caller_token) [
      | token_invalid ↦ false
      | _ ↦ kit.verify caller_token permission
    ]
    else kit.verify_first caller_token token_first_caller permission

unfoldable pub check_location_permission : AccessTokens → ℕ → ℕ → Bool
check_location_permission kit = check_permission kit access_location

unfoldable pub check_approximately_permission : AccessTokens → ℕ → ℕ → Bool
check_approximately_permission kit = check_permission kit access_approximately_location

unfoldable pub check_background_permission : AccessTokens → ℕ → ℕ → Bool
check_background_permission kit = check_permission kit access_background_location

unfoldable pub check_secure_settings : AccessTokens → ℕ → ℕ → Bool
check_secure_settings kit = check_permission kit manage_secure_settings

pub data PermissionLevel : Type 0 where
  permission_invalid permission_approximately permission_accurate : PermissionLevel

unfoldable pub get_permission_level : AccessTokens → ℕ → ℕ → PermissionLevel
get_permission_level kit token first =
    let approximately = check_permission kit access_approximately_location token first in
    let location = check_permission kit access_location token first in
    if approximately && location
    then permission_accurate
    else if approximately && not location
    then permission_approximately
    else if not approximately && location
    then permission_accurate
    else permission_invalid

unfoldable pub check_system_permission : AccessTokens → ℕ → ℕ → Bool
check_system_permission kit caller_token caller_token_ex = elim (kit.token_type caller_token) [
  | token_native ↦ true
  | token_shell ↦ false
  | token_invalid ↦ false
  | token_hap ↦ kit.is_system_app caller_token_ex
]

-- The numbers of the system abilities are the system's: what is told apart is which one.
pub data SystemAbility : Type 0 where
  gnss_sa network_locating_sa nopower_locating_sa geo_convert_sa : SystemAbility

abbrev pub gnss_ability : String
gnss_ability = "gps"

abbrev pub network_ability : String
network_ability = "network"

abbrev pub passive_ability : String
passive_ability = "passive"

abbrev pub geo_ability : String
geo_ability = "geo"

-- `none` is the source's -1.
unfoldable pub ability_convert_to_id : String → Option SystemAbility
ability_convert_to_id ability =
    if gnss_ability == ability
    then some gnss_sa
    else if network_ability == ability
    then some network_locating_sa
    else if passive_ability == ability
    then some nopower_locating_sa
    else if geo_ability == ability
    then some geo_convert_sa
    else none
