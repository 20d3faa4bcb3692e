-- ===== src/LocatorStub.antt =====
-- services/location_locator/locator/source/locator_skeleton.cpp: the stub of the locator, which checks
-- who calls, reads the message and calls LocatorAbility. A handler is a function from the message to
-- the call that it makes, or to the code that it refuses with; Run makes the call. The token service
-- is a parameter. What a handler writes to the reply behind the code of the call is left out, and so
-- are the death recipients. A callback that is not null is one of the right interface.
pub mod Handlers
pub mod Dispatch
pub mod Guarded
pub mod Run
pub mod Protected
mod Tests
use gitee_oh_base_location.Base.{
  ℕ, Bool, Option, String, if◌then◌else◌, int_eq, nat_eq, not, pos, string_eq, ℤ, ◌&&◌, ◌==◌, ◌||◌,
}
use gitee_oh_base_location.ErrCode.{
  LocationErrCode, errcode_permission_denied, errcode_system_permission_denied, errcode_switch_off,
}
use gitee_oh_base_location.Common.{
  AccessTokens, check_location_permission, check_approximately_permission, check_secure_settings,
  check_system_permission,
}
use gitee_oh_base_location.Location.{Location, RequestConfig}
use gitee_oh_base_location.LocatorAbility.{AppIdentity, disabled}
use gitee_oh_base_location.LocatorAbility.Operations.{MockMessage}

pub record Geofence (D : Type 0) : Type 0 where
  pub scenario : ℤ
  pub latitude : D
  pub longitude : D
  pub radius : D
  pub expiration : D

-- The operation of LocatorAbility that a handler calls. `P` is the type of the parcels, for the
-- messages that are passed on to the geocoding service.
pub data LocatorCall (D P : Type 0) : Type 0 where
  get_switch_state update_sa_ability get_iso_country_code reset_all_proxy : LocatorCall D P
  register_switch_callback : (client : Option ℕ) (uid : ℤ) → LocatorCall D P
  unregister_switch_callback : (client : Option ℕ) → LocatorCall D P
  start_locating :
      (config : RequestConfig D) (callback : ℕ) (identity : AppIdentity) → LocatorCall D P
  stop_locating : (callback : ℕ) → LocatorCall D P
  get_cache_location : (identity : AppIdentity) → LocatorCall D P
  enable_ability : (is_enabled : Bool) → LocatorCall D P
  is_location_privacy_confirmed : (type : ℤ) → LocatorCall D P
  set_location_privacy_confirm_status : (type : ℤ) (is_confirmed : Bool) → LocatorCall D P
  mock_location : (message : MockMessage D) → LocatorCall D P
  register_country_code_callback : (client : ℕ) (uid : ℤ) → LocatorCall D P
  unregister_country_code_callback : (client : Option ℕ) → LocatorCall D P
  proxy_uid_for_freeze : (uid : ℤ) (is_proxy : Bool) → LocatorCall D P
  report_location : (system_ability : String) (location : Location D) → LocatorCall D P
  is_geo_convert_available : LocatorCall D P
  enable_reverse_geocoding_mock disable_reverse_geocoding_mock : LocatorCall D P
  get_address_by_coordinate get_address_by_location_name : (message : P) → LocatorCall D P
  set_reverse_geocoding_mock_info : (message : P) → LocatorCall D P
  register_gnss_status_callback : (client : Option ℕ) (uid : ℤ) → LocatorCall D P
  unregister_gnss_status_callback : (client : Option ℕ) → LocatorCall D P
  register_nmea_message_callback : (client : Option ℕ) (uid : ℤ) → LocatorCall D P
  unregister_nmea_message_callback : (client : Option ℕ) → LocatorCall D P
  register_cached_location_callback :
      (period_sec : ℤ) (wake_up : Bool) (callback : ℕ) (bundle_name : String) → LocatorCall D P
  unregister_cached_location_callback : (callback : ℕ) → LocatorCall D P
  get_cached_gnss_locations_size flush_cached_gnss_locations : LocatorCall D P
  -- The command is read as a Boolean.
  send_command : (scenario : ℤ) (command : Bool) → LocatorCall D P
  add_fence remove_fence : (fence : Geofence D) → LocatorCall D P

-- What a handler comes to: a call, or a refusal with a code, which it returns and, but for
-- `refused_silently`, writes to the reply.
pub data Answer (D P : Type 0) : Type 0 where
  passed : (locator_call : LocatorCall D P) → Answer D P
  refused refused_silently : (code : LocationErrCode) → Answer D P
  -- No handler has the code.
  unsupported : Answer D P

-- What the checks of the stub ask: the token service, the value of the switch, and the ids of the
-- process of the locator.
pub record Guards : Type 0 where
  pub tokens : AccessTokens
  pub switch : ℤ
  pub own_uid : ℤ
  pub own_pid : ℤ

-- What `GetCallingUid` and `GetCallingPid` give after `ResetCallingIdentity`: the process itself.
unfoldable pub reset_calling_identity : Guards → ℤ × ℤ
reset_calling_identity s = (s.own_uid, s.own_pid)

abbrev pub root_uid : ℤ
root_uid = pos 0

unfoldable pub location_permission : Guards → AppIdentity → Bool
location_permission s identity = not (
    not (check_location_permission s.tokens identity.token_id identity.first_token_id)
    && not (check_approximately_permission s.tokens identity.token_id identity.first_token_id))

unfoldable pub precise_location_permissions : Guards → AppIdentity → Bool
precise_location_permissions s identity = not (
    not (check_location_permission s.tokens identity.token_id identity.first_token_id)
    || not (check_approximately_permission s.tokens identity.token_id identity.first_token_id))

unfoldable pub settings_permission : Guards → AppIdentity → Bool
settings_permission s identity =
    check_secure_settings s.tokens identity.token_id identity.first_token_id

unfoldable pub system_permission : Guards → AppIdentity → Bool
system_permission s identity =
    check_system_permission s.tokens identity.token_id identity.token_id_ex

unfoldable pub location_switch_state : Guards → Bool
location_switch_state s = not (s.switch == disabled)

-- An early return with a code.
abbrev pub require : {D P : Type 0} → Bool → LocationErrCode → Answer D P → Answer D P
require ok code rest = if ok then rest else refused code

module _ {D P : Type 0} (s : Guards) (identity : AppIdentity) where
  abbrev pub with_location_permission : Answer D P → Answer D P
  with_location_permission rest =
      require (location_permission s identity) errcode_permission_denied rest

  abbrev pub with_precise_permissions : Answer D P → Answer D P
  with_precise_permissions rest =
      require (precise_location_permissions s identity) errcode_permission_denied rest

  abbrev pub with_settings_permission : Answer D P → Answer D P
  with_settings_permission rest =
      require (settings_permission s identity) errcode_permission_denied rest

  abbrev pub with_system_permission : Answer D P → Answer D P
  with_system_permission rest =
      require (system_permission s identity) errcode_system_permission_denied rest

  abbrev pub with_root : Answer D P → Answer D P
  with_root rest = require (identity.uid == root_uid) errcode_permission_denied rest

abbrev pub with_switch : {D P : Type 0} → Guards → Answer D P → Answer D P
with_switch s rest = require (location_switch_state s) errcode_switch_off rest
