-- ===== src/Common/Tests.antt =====
-- Runs of the permission checks, and the witnesses of their properties.
use gitee_oh_base_location.Base.{
  false, if◌then◌else◌, int_eq, nat_eq, refl, string_eq, ◌==◌, ◌≡◌, some,
}
use gitee_oh_base_location.Common.{
  AccessTokens, token_hap, token_invalid, check_permission, get_permission_level,
  permission_approximately, ability_convert_to_id, gnss_sa,
}
use gitee_oh_base_location.Common.Permission.{check_permission_invalid}

abbrev only_approximate : AccessTokens
only_approximate = record {
  token_type = λ token. if token == 9 then token_invalid else token_hap;
  verify = λ token permission. permission == "ohos.permission.APPROXIMATELY_LOCATION";
  verify_first = λ token first permission. false;
  is_system_app = λ token. false;
}

level_test : get_permission_level only_approximate 5 0 ≡ permission_approximately
unfolding get_permission_level check_permission
level_test = refl

check_permission_invalid_example :
    check_permission only_approximate "ohos.permission.APPROXIMATELY_LOCATION" 9 0 ≡ false
check_permission_invalid_example =
    check_permission_invalid only_approximate "ohos.permission.APPROXIMATELY_LOCATION" 9 refl

gps_id : ability_convert_to_id "gps" ≡ some gnss_sa
unfolding ability_convert_to_id
gps_id = refl
