-- ===== src/ConfigManager/RoundTrip.antt =====
-- A privacy state that is set is read back, by the same user for the same type, and no other.
use gitee_oh_base_location.Base.{
  Bool, arith, false, int_eq, nat_eq, string_eq, true, ℤ, ◌&&◌, ◌==◌, ◌≡◌,
}
use gitee_oh_base_location.ErrCode.{errcode_success}
use gitee_oh_base_location.ConfigManager.{
  LocationConfigManager, is_exist_file, write_file, ensure_file, read_state, state_or,
  is_privacy_type, cache_privacy, get_privacy_type_state, set_privacy_type_state,
}

-- After a privacy type is set, with files that can be opened: the same user reads the value that was
-- set, and the file of every other type or user is as it was.
pub get_privacy_type_state-set_privacy_type_state :
    (user type : ℤ) (is_confirmed : Bool) (m : LocationConfigManager) (user' type' : ℤ)
    → is_privacy_type type ≡ true
    → (type' == type && user' == user) ≡ false
    → let (m', code) = set_privacy_type_state true user type is_confirmed m in
      (code ≡ errcode_success)
      × ((get_privacy_type_state true user type m').1 ≡ (is_confirmed, errcode_success))
      × (m'.files type' user' ≡ m.files type' user')
unfolding set_privacy_type_state get_privacy_type_state cache_privacy write_file ensure_file
    read_state state_or is_exist_file
get_privacy_type_state-set_privacy_type_state user type is_confirmed m user' type' valid other =
    ground (arith, valid, other, int_eq.beq_iff type type, int_eq.beq_iff user user)
