-- ===== src/ConfigManager.antt =====
-- services/location_locator/locator/source/location_config_manager.cpp: the switch and the privacy
-- states that stand in files, one for each user. The file system is the system's: a file is kept by
-- what its first line begins with, which is all that is read of it, and `write` at the start of a file
-- replaces that. `opens` is whether a file that is there can be opened. A path is its kind, -1 for the
-- switch and else the privacy type, and the user that `GetCurrentUserId` gives, or 0.
pub mod RoundTrip
mod Tests
use gitee_oh_base_location.Base.{
  ℕ, Bool, Option, false, if◌then◌else◌, int_eq, ltb_ℤ, nat_eq, negsuc, none, not, pos, some,
  string_eq, true, ℤ, ◌&&◌, ◌==◌, ◌||◌,
}
use gitee_oh_base_location.ErrCode.{
  LocationErrCode, errcode_success, errcode_invalid_param, errcode_service_unavailable,
}

-- The first line of a file: it begins with 0, with 1 or with another character, or it is empty or
-- missing.
pub data FirstLine : Type 0 where
  line_zero line_one line_other line_empty : FirstLine

pub record LocationConfigManager : Type 0 where
  pub location_switch_state : ℤ
  pub privacy_type_state : ℤ → ℤ
  pub files : ℤ → ℤ → Option FirstLine

abbrev pub state_close : ℤ
state_close = pos 0

abbrev pub state_open : ℤ
state_open = pos 1

abbrev pub privacy_type_others : ℤ
privacy_type_others = pos 0

abbrev pub privacy_type_core_location : ℤ
privacy_type_core_location = pos 2

abbrev pub switch_kind : ℤ
switch_kind = negsuc 0

unfoldable pub new_config_manager : LocationConfigManager
new_config_manager = record {
  location_switch_state = state_close;
  privacy_type_state = λ type. state_close;
  files = λ kind user. none;
}

unfoldable pub is_exist_file : LocationConfigManager → ℤ → ℤ → Bool
is_exist_file m kind user = elim (m.files kind user) [ none ↦ false | some line ↦ true ]

-- The file gets a new first line.
unfoldable pub write_file : LocationConfigManager → ℤ → ℤ → FirstLine → LocationConfigManager
write_file m kind user line = record m {
  files = λ k u. if k == kind && u == user then some line else m.files k u;
}

-- Where the file is missing, CreateFile makes it with "0", if it can be opened.
unfoldable pub ensure_file : Bool → ℤ → ℤ → LocationConfigManager → LocationConfigManager
ensure_file opens kind user m =
    if not (is_exist_file m kind user)
    then (if opens then write_file m kind user line_zero else m)
    else m

-- The state that a file tells, if it tells one.
unfoldable pub read_state : LocationConfigManager → ℤ → ℤ → Option ℤ
read_state m kind user = elim (m.files kind user) [
  | some line_zero ↦ some state_close
  | some line_one ↦ some state_open
  | _ ↦ none
]

-- The value read, or the one that is cached.
unfoldable pub state_or : Option ℤ → ℤ → ℤ
state_or none cached = cached
state_or (some state) cached = state

unfoldable pub get_location_switch_state :
    Bool → ℤ → LocationConfigManager → LocationConfigManager × ℤ
get_location_switch_state opens user m =
    let ready = ensure_file opens switch_kind user m in
    let state = state_or (read_state ready switch_kind user) ready.location_switch_state in
    if not opens then (ready, negsuc 0) else (record ready { location_switch_state = state }, state)

unfoldable pub set_location_switch_state :
    Bool → ℤ → ℤ → LocationConfigManager → LocationConfigManager × ℤ
set_location_switch_state opens user state m =
    let ready = ensure_file opens switch_kind user m in
    let line = if state == state_close then line_zero else line_one in
    if not (state == state_close) && not (state == state_open)
    then (ready, negsuc 0)
    else if not opens
    then (ready, negsuc 0)
    else (record (write_file ready switch_kind user line) { location_switch_state = state }, pos 0)

unfoldable pub is_privacy_type : ℤ → Bool
is_privacy_type type = not (ltb_ℤ type privacy_type_others || ltb_ℤ privacy_type_core_location type)

unfoldable pub cache_privacy : ℤ → ℤ → LocationConfigManager → LocationConfigManager
cache_privacy type state m = record m {
  privacy_type_state = λ t. if t == type then state else m.privacy_type_state t;
}

unfoldable pub get_privacy_type_state :
    Bool → ℤ → ℤ → LocationConfigManager → LocationConfigManager × (Bool × LocationErrCode)
get_privacy_type_state opens user type m =
    let ready = ensure_file opens type user m in
    let state = state_or (read_state ready type user) (ready.privacy_type_state type) in
    if not (is_privacy_type type)
    then (m, (false, errcode_invalid_param))
    else if not opens
    then (ready, (false, errcode_service_unavailable))
    else (cache_privacy type state ready, (state == state_open, errcode_success))

unfoldable pub set_privacy_type_state :
    Bool → ℤ → ℤ → Bool → LocationConfigManager → LocationConfigManager × LocationErrCode
set_privacy_type_state opens user type is_confirmed m =
    let ready = ensure_file opens type user m in
    let line = if is_confirmed then line_one else line_zero in
    let state = if is_confirmed then state_open else state_close in
    if not (is_privacy_type type)
    then (m, errcode_invalid_param)
    else if not opens
    then (ready, errcode_service_unavailable)
    else (cache_privacy type state (write_file ready type user line), errcode_success)
