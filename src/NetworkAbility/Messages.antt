-- ===== src/NetworkAbility/Messages.antt =====
-- The service interface of network_ability.cpp: enabling, mocking, the messages that are put into the
-- handler's queue, and the handler that runs them. `accepted` is whether the handler takes an event.
use gitee_oh_base_location.Base.{
  ℕ, Bool, List, Option, String, [], false, if◌then◌else◌, int_eq, nat_eq, none, not, some,
  string_eq, true, ℤ, ◌==◌, ◌||◌,
}
use gitee_oh_base_location.ErrCode.{
  LocationErrCode, errcode_success, errcode_not_supported, errcode_service_unavailable,
}
use gitee_oh_base_location.Common.{SystemAbility, network_ability}
use gitee_oh_base_location.Parcel.{ParcelOps}
use gitee_oh_base_location.Location.{Location}
use gitee_oh_base_location.WorkRecord.{WorkRecord}
use gitee_oh_base_location.WorkRecord.Marshal.{unmarshalling}
use gitee_oh_base_location.Lifecycle.{Registration, enable}
use gitee_oh_base_location.SubAbility.{get_request_num}
use gitee_oh_base_location.Mock.{
  read_mocked, is_mock_enabled, is_mock_processing, enable_mock, disable_mock, set_mocked,
  process_report_location_mock,
}
use gitee_oh_base_location.NetworkAbility.{NetworkAbility, Nlp, send_location_request, self_request}

-- An event of the handler.
pub data Event (D : Type 0) : Type 0 where
  event_report_location : Event D
  event_send_location_request : (workrecord : WorkRecord) → Event D
  event_set_mocked_locations : (time_interval : ℤ) (locations : List (Location D)) → Event D
  event_self_request : (state : Bool) → Event D
  event_other : Event D

pub data NetworkInterfaceCode : Type 0 where
  code_send_location_request code_set_mocked_locations : NetworkInterfaceCode
  code_self_request code_other : NetworkInterfaceCode

-- The process and the user that the handler runs as, and the random number of a self request, as text.
pub record Caller : Type 0 where
  pub pid : ℤ
  pub uid : ℤ
  pub random : String

module _ {D : Type 0} where
  unfoldable pub check_if_network_connecting : NetworkAbility D → Bool
  check_if_network_connecting a =
      is_mock_enabled a.mock || (is_mock_processing a.mock || not (get_request_num a.mock.sub == 0))

  -- The calls that SetEnable makes to the system ability manager; its result is success.
  unfoldable pub set_enable :
      Option (Option SystemAbility → Bool)
      → NetworkAbility D
      → Bool
      → List Registration × LocationErrCode
  set_enable manager a state =
      if state
      then (enable manager network_ability true, errcode_success)
      else if not (check_if_network_connecting a)
      then (enable manager network_ability false, errcode_success)
      else ([], errcode_success)

  -- Whether the ability is asked to be unloaded.
  unfoldable pub unload_network_system_ability : NetworkAbility D → Bool
  unload_network_system_ability a = not (check_if_network_connecting a)

  unfoldable pub network_enable_mock : NetworkAbility D → NetworkAbility D × LocationErrCode
  network_enable_mock a = let (m, code) = enable_mock a.mock in (record a { mock = m }, code)

  unfoldable pub network_disable_mock : NetworkAbility D → NetworkAbility D × LocationErrCode
  network_disable_mock a = let (m, code) = disable_mock a.mock in (record a { mock = m }, code)

  unfoldable pub network_set_mocked :
      NetworkAbility D → ℤ → List (Location D) → NetworkAbility D × LocationErrCode
  network_set_mocked a time_interval locations =
      let (m, code) = set_mocked a.mock time_interval locations in (record a { mock = m }, code)

  unfoldable pub network_report_location_mock : Bool → NetworkAbility D → NetworkAbility D
  network_report_location_mock passive a = record a {
    mock = process_report_location_mock network_ability passive a.mock;
  }

  -- SendMessage: the event that is sent, and the code that is written to the reply. `none` is where
  -- nothing is sent, or nothing written.
  unfoldable pub send_message :
      (o : ParcelOps D)
      → Bool
      → NetworkAbility D
      → NetworkInterfaceCode
      → o.P
      → Option (Event D) × Option LocationErrCode
  send_message o accepted a code_send_location_request parcel =
      if accepted
      then (some (event_send_location_request (unmarshalling o parcel).0), some errcode_success)
      else (none, some errcode_service_unavailable)
  send_message o accepted a code_set_mocked_locations parcel =
      let (time_interval, locations) = read_mocked o parcel in
      if not (is_mock_enabled a.mock)
      then (none, some errcode_not_supported)
      else if accepted
      then (some (event_set_mocked_locations time_interval locations), some errcode_success)
      else (none, some errcode_service_unavailable)
  send_message o accepted a code_self_request parcel =
      if accepted
      then (some (event_self_request (o.read_bool parcel).0), some errcode_success)
      else (none, some errcode_service_unavailable)
  send_message o accepted a code_other parcel = (none, none)

  -- The state after an event, and whether the ability is asked to be unloaded.
  unfoldable pub process_event :
      (ℕ → Nlp) → Bool → Caller → Event D → NetworkAbility D → NetworkAbility D × Bool
  process_event nlps passive caller event_report_location a =
      let a' = network_report_location_mock passive a in (a', unload_network_system_ability a')
  process_event nlps passive caller (event_send_location_request workrecord) a =
      let a' = send_location_request nlps a workrecord in (a', unload_network_system_ability a')
  process_event nlps passive caller (event_set_mocked_locations time_interval locations) a =
      let a' = (network_set_mocked a time_interval locations).0 in
      (a', unload_network_system_ability a')
  process_event nlps passive caller (event_self_request state) a =
      (self_request nlps a caller.pid caller.uid state caller.random, false)
  process_event nlps passive caller event_other a = (a, unload_network_system_ability a)
