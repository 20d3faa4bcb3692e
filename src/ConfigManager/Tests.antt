-- ===== src/ConfigManager/Tests.antt =====
-- Runs of the configuration, and the witness of its property.
use gitee_oh_base_location.Base.{none, pos, refl, true, ◌≡◌}
use gitee_oh_base_location.ErrCode.{errcode_success}
use gitee_oh_base_location.ConfigManager.{
  new_config_manager, is_privacy_type, get_privacy_type_state, set_privacy_type_state,
  get_location_switch_state, ensure_file, is_exist_file, write_file, read_state, state_or,
}
use gitee_oh_base_location.ConfigManager.RoundTrip.{get_privacy_type_state-set_privacy_type_state}

-- A switch that was never set is closed.
closed_at_first : (get_location_switch_state true (pos 100) new_config_manager).1 ≡ pos 0
unfolding get_location_switch_state new_config_manager ensure_file is_exist_file write_file
    read_state state_or
closed_at_first = refl

get_privacy_type_state-set_privacy_type_state_example :
    let (m', code) = set_privacy_type_state true (pos 100) (pos 1) true new_config_manager in
    (code ≡ errcode_success)
    × ((get_privacy_type_state true (pos 100) (pos 1) m').1 ≡ (true, errcode_success))
    × (m'.files (pos 1) (pos 101) ≡ none)
unfolding new_config_manager is_privacy_type
get_privacy_type_state-set_privacy_type_state_example =
    get_privacy_type_state-set_privacy_type_state (pos 100) (pos 1) true new_config_manager
      (pos 101) (pos 1) refl refl
