-- ===== src/GnssAbility/Messages.antt =====
-- The service interface of gnss_ability.cpp: enabling, mocking, the messages that are put into the
-- handler's queue, and the handler that runs them. `accepted` is whether the handler takes an event.
use gitee_oh_base_location.Base.{
  ℕ, Bool, List, Option, [], false, if◌then◌else◌, length, ltb, none, not, some, true, ℤ, ◌||◌,
}
use gitee_oh_base_location.ErrCode.{
  LocationErrCode, errcode_success, errcode_not_supported, errcode_service_unavailable,
}
use gitee_oh_base_location.Common.{SystemAbility, gnss_ability}
use gitee_oh_base_location.Parcel.{ParcelOps}
use gitee_oh_base_location.Location.{Location}
use gitee_oh_base_location.WorkRecord.{WorkRecord}
use gitee_oh_base_location.WorkRecord.Marshal.{unmarshalling}
use gitee_oh_base_location.Lifecycle.{Registration, enable}
use gitee_oh_base_location.Mock.{
  read_mocked, is_mock_enabled, is_mock_processing, enable_mock, disable_mock, set_mocked,
  process_report_location_mock,
}
use gitee_oh_base_location.GnssAbility.{GnssAbility, Hdi, send_location_request}

-- An event of the handler.
pub data Event (D : Type 0) : Type 0 where
  event_report_location : Event D
  event_send_location_request : (workrecord : WorkRecord) → Event D
  event_set_mocked_locations : (time_interval : ℤ) (locations : List (Location D)) → Event D
  event_other : Event D

pub data GnssInterfaceCode : Type 0 where
  code_send_location_request code_set_mocked_locations code_other : GnssInterfaceCode

module _ {D : Type 0} where
  unfoldable pub check_if_gnss_connecting : GnssAbility D → Bool
  check_if_gnss_connecting g =
      is_mock_enabled g.mock
      || (ltb 0 (length g.gnss_status_callbacks)
          || (ltb 0 (length g.nmea_callbacks) || (g.is_hdi_connected || is_mock_processing g.mock)))

  -- The calls that SetEnable makes to the system ability manager; its result is success.
  unfoldable pub set_enable :
      Option (Option SystemAbility → Bool)
      → GnssAbility D
      → Bool
      → List Registration × LocationErrCode
  set_enable manager g state =
      if state
      then (enable manager gnss_ability true, errcode_success)
      else if not (check_if_gnss_connecting g)
      then (enable manager gnss_ability false, errcode_success)
      else ([], errcode_success)

  -- Whether the ability is asked to be unloaded.
  unfoldable pub unload_gnss_system_ability : GnssAbility D → Bool
  unload_gnss_system_ability g = not (check_if_gnss_connecting g)

  unfoldable pub gnss_enable_mock : GnssAbility D → GnssAbility D × LocationErrCode
  gnss_enable_mock g = let (m, code) = enable_mock g.mock in (record g { mock = m }, code)

  unfoldable pub gnss_disable_mock : GnssAbility D → GnssAbility D × LocationErrCode
  gnss_disable_mock g = let (m, code) = disable_mock g.mock in (record g { mock = m }, code)

  unfoldable pub gnss_set_mocked :
      GnssAbility D → ℤ → List (Location D) → GnssAbility D × LocationErrCode
  gnss_set_mocked g time_interval locations =
      let (m, code) = set_mocked g.mock time_interval locations in (record g { mock = m }, code)

  unfoldable pub gnss_report_location_mock : Bool → GnssAbility D → GnssAbility D
  gnss_report_location_mock passive g = record g {
    mock = process_report_location_mock gnss_ability passive g.mock;
  }

  -- SendMessage: the event that is sent, and the code that is written to the reply. `none` is where
  -- nothing is sent, or nothing written.
  unfoldable pub send_message :
      (o : ParcelOps D)
      → Bool
      → GnssAbility D
      → GnssInterfaceCode
      → o.P
      → Option (Event D) × Option LocationErrCode
  send_message o accepted g code_send_location_request parcel =
      if accepted
      then (some (event_send_location_request (unmarshalling o parcel).0), some errcode_success)
      else (none, some errcode_service_unavailable)
  send_message o accepted g code_set_mocked_locations parcel =
      let (time_interval, locations) = read_mocked o parcel in
      if not (is_mock_enabled g.mock)
      then (none, some errcode_not_supported)
      else if accepted
      then (some (event_set_mocked_locations time_interval locations), some errcode_success)
      else (none, some errcode_service_unavailable)
  send_message o accepted g code_other parcel = (none, none)

  -- What an event does before the ability is asked to be unloaded.
  unfoldable pub handle_event : (ℕ → Hdi) → Bool → Event D → GnssAbility D → GnssAbility D
  handle_event hdis passive event_report_location g = gnss_report_location_mock passive g
  handle_event hdis passive (event_send_location_request workrecord) g =
      send_location_request hdis g workrecord
  handle_event hdis passive (event_set_mocked_locations time_interval locations) g =
      (gnss_set_mocked g time_interval locations).0
  handle_event hdis passive event_other g = g

  -- The state after an event, and whether the ability is asked to be unloaded.
  unfoldable pub process_event : (ℕ → Hdi) → Bool → Event D → GnssAbility D → GnssAbility D × Bool
  process_event hdis passive event g =
      let g' = handle_event hdis passive event g in (g', unload_gnss_system_ability g')
