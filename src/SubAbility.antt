-- ===== src/SubAbility.antt =====
-- services/location_locator/locator/source/subability_common.cpp: what the GNSS, network and
-- passive abilities share. The virtual `RequestRecord` is not called here: the calls that would be
-- made are listed in their order, for the ability to run. They change no field of `SubAbility`.
-- `label_`, `name_` and `capability_` serve logging and registration only.
pub mod Announce
pub mod Request
pub mod Difference
pub mod SelfRequest
pub mod Empty
mod Tests
use gitee_oh_base_location.Base.{
  ℕ, Bool, List, String, [], false, if◌then◌else◌, not, pos, suc, true, zero, ℤ, ◌++◌, ◌+◌, ◌∷◌,
}
use gitee_oh_base_location.WorkRecord.{
  WorkRecord, new_record, add, remove, find, clear, set, size, set_device_id, get_device_id,
  get_uid, get_pid, get_name, get_time_interval, get_uuid,
}

-- `Loc` is the type of the locations that are mocked.
pub record SubAbility (Loc : Type 0) : Type 0 where
  pub interval : ℤ
  pub last_record : WorkRecord
  pub new_record : WorkRecord
  pub mock_time_interval : ℤ
  pub mock_enabled : Bool
  pub mock_loc : List Loc

-- A call `RequestRecord(workRecord, isAdded)`.
pub record RequestRecord : Type 0 where
  pub work_record : WorkRecord
  pub is_added : Bool

unfoldable pub new_sub_ability : {Loc : Type 0} → SubAbility Loc
new_sub_ability = record {
  interval = pos 0;
  last_record = new_record;
  new_record = new_record;
  mock_time_interval = pos 0;
  mock_enabled = false;
  mock_loc = [];
}

-- Row `i` of `record` as a work record of its own, with the device id of `newRecord`.
unfoldable pub single_row : WorkRecord → WorkRecord → ℕ → WorkRecord
single_row source newRecord i =
    set_device_id
      (add new_record (get_uid source (pos i)) (get_pid source (pos i)) (get_name source (pos i))
        (get_time_interval source (pos i)) (get_uuid source (pos i)))
      (get_device_id newRecord)

-- Rounds `i` to `i + rounds - 1` of the loop over the last record.
unfoldable pub remove_calls : WorkRecord → WorkRecord → ℕ → ℕ → List RequestRecord
remove_calls last newRecord zero i = []
remove_calls last newRecord (suc rounds) i =
    let is_find =
      find newRecord (get_uid last (pos i)) (get_name last (pos i)) (get_uuid last (pos i)) in
    let rest = remove_calls last newRecord rounds (i + 1) in
    if not is_find
    then record { work_record = single_row last newRecord i; is_added = false } ∷ rest
    else rest

-- Rounds of the loop over the new record. The uuid is that of row `i` of the last record.
unfoldable pub add_calls : WorkRecord → WorkRecord → ℕ → ℕ → List RequestRecord
add_calls last newRecord zero i = []
add_calls last newRecord (suc rounds) i =
    let is_find =
      find last (get_uid newRecord (pos i)) (get_name newRecord (pos i)) (get_uuid last (pos i)) in
    let rest = add_calls last newRecord rounds (i + 1) in
    if not is_find
    then record { work_record = single_row newRecord newRecord i; is_added = true } ∷ rest
    else rest

module _ {Loc : Type 0} where
  unfoldable pub handle_remove_record : SubAbility Loc → WorkRecord → List RequestRecord
  handle_remove_record s newRecord = remove_calls s.last_record newRecord (size s.last_record) 0

  unfoldable pub handle_add_record : SubAbility Loc → WorkRecord → List RequestRecord
  handle_add_record s newRecord = add_calls s.last_record newRecord (size newRecord) 0

  unfoldable pub handle_local_request : SubAbility Loc → WorkRecord → List RequestRecord
  handle_local_request s newRecord =
      handle_remove_record s newRecord ++ handle_add_record s newRecord

  unfoldable pub handle_refrash_requirements : SubAbility Loc → SubAbility Loc × List RequestRecord
  handle_refrash_requirements s = (
    record s { last_record = set (clear s.last_record) s.new_record },
    handle_local_request s s.new_record,
  )

  unfoldable pub location_request :
      SubAbility Loc → WorkRecord → SubAbility Loc × List RequestRecord
  location_request s work_record = handle_refrash_requirements (record s {
    interval = get_time_interval work_record (pos 0);
    new_record = set (clear s.new_record) work_record;
  })

  unfoldable pub get_request_num : SubAbility Loc → ℕ
  get_request_num s = size s.new_record

  -- `uuid` is the random number that is drawn, as text.
  unfoldable pub handle_self_request :
      SubAbility Loc → ℤ → ℤ → Bool → String → SubAbility Loc × List RequestRecord
  handle_self_request s pid uid state uuid =
      let records = set new_record s.last_record in
      location_request s (
        if state
        then add records uid pid "ohos" s.interval uuid
        else (remove records uid pid "ohos" uuid).0)

  unfoldable pub enable_location_mock : SubAbility Loc → SubAbility Loc × Bool
  enable_location_mock s = (record s { mock_enabled = true }, true)

  unfoldable pub disable_location_mock : SubAbility Loc → SubAbility Loc × Bool
  disable_location_mock s = (record s { mock_enabled = false }, true)

  unfoldable pub clear_location_mock : SubAbility Loc → SubAbility Loc
  clear_location_mock s = record s { mock_loc = [] }

  unfoldable pub cache_location_mock : SubAbility Loc → List Loc → SubAbility Loc
  cache_location_mock s location = record (clear_location_mock s) { mock_loc = [] ++ location }

  -- Where the result is `true`, the virtual `SendReportMockLocationEvent` has been called last.
  unfoldable pub set_mocked_locations : SubAbility Loc → ℤ → List Loc → SubAbility Loc × Bool
  set_mocked_locations s time_interval location =
      if not s.mock_enabled
      then (s, false)
      else (record (cache_location_mock s location) { mock_time_interval = time_interval }, true)
