-- ===== src/PassiveAbility.antt =====
-- services/location_passive/passive/source/passive_ability.cpp: the passive ability, which asks for no
-- location of its own: RequestRecord only logs, so a request changes the records alone.
mod Tests
use gitee_oh_base_location.Base.{
  ℕ, Bool, List, Option, [], arith, false, if◌then◌else◌, int_eq, length, ltb, nat_eq, none, not,
  some, string_eq, true, ℤ, ◌==◌, ◌||◌, ◌≡◌,
}
use gitee_oh_base_location.ErrCode.{
  LocationErrCode, errcode_success, errcode_not_supported, errcode_service_unavailable,
}
use gitee_oh_base_location.Common.{SystemAbility, passive_ability}
use gitee_oh_base_location.Parcel.{ParcelOps}
use gitee_oh_base_location.Location.{Location}
use gitee_oh_base_location.WorkRecord.{WorkRecord}
use gitee_oh_base_location.Lifecycle.{Lifecycle, new_lifecycle, Registration, enable}
use gitee_oh_base_location.SubAbility.{
  SubAbility, new_sub_ability, get_request_num, location_request, enable_location_mock,
  disable_location_mock, set_mocked_locations, clear_location_mock, cache_location_mock,
}
use gitee_oh_base_location.Mock.{read_mocked}

pub record PassiveAbility (D : Type 0) : Type 0 where
  pub sub : SubAbility (Location D)
  pub lifecycle : Lifecycle

-- An event of the handler.
pub data Event (D : Type 0) : Type 0 where
  event_set_mocked_locations : (time_interval : ℤ) (locations : List (Location D)) → Event D
  event_other : Event D

pub data PassiveInterfaceCode : Type 0 where
  code_set_mocked_locations code_other : PassiveInterfaceCode

module _ {D : Type 0} where
  unfoldable pub new_passive_ability : PassiveAbility D
  new_passive_ability = record { sub = new_sub_ability; lifecycle = new_lifecycle }

  unfoldable pub send_location_request : PassiveAbility D → WorkRecord → PassiveAbility D
  send_location_request a workrecord = record a { sub = (location_request a.sub workrecord).0 }

  unfoldable pub check_if_passive_connecting : PassiveAbility D → Bool
  check_if_passive_connecting a =
      a.sub.mock_enabled || (ltb 0 (length a.sub.mock_loc) || not (get_request_num a.sub == 0))

  -- The calls that SetEnable makes to the system ability manager; its result is success.
  unfoldable pub set_enable :
      Option (Option SystemAbility → Bool)
      → PassiveAbility D
      → Bool
      → List Registration × LocationErrCode
  set_enable manager a state =
      if state
      then (enable manager passive_ability true, errcode_success)
      else if not (check_if_passive_connecting a)
      then (enable manager passive_ability false, errcode_success)
      else ([], errcode_success)

  -- Whether the ability is asked to be unloaded.
  unfoldable pub unload_passive_system_ability : PassiveAbility D → Bool
  unload_passive_system_ability a = not (check_if_passive_connecting a)

  unfoldable pub enable_mock : PassiveAbility D → PassiveAbility D × LocationErrCode
  enable_mock a =
      let (sub, ok) = enable_location_mock a.sub in
      (record a { sub = sub }, if not ok then errcode_not_supported else errcode_success)

  unfoldable pub disable_mock : PassiveAbility D → PassiveAbility D × LocationErrCode
  disable_mock a =
      let (sub, ok) = disable_location_mock a.sub in
      (record a { sub = sub }, if not ok then errcode_not_supported else errcode_success)

  unfoldable pub send_report_mock_location_event : PassiveAbility D → PassiveAbility D
  send_report_mock_location_event a = record a { sub = clear_location_mock a.sub }

  unfoldable pub set_mocked :
      PassiveAbility D → ℤ → List (Location D) → PassiveAbility D × LocationErrCode
  set_mocked a time_interval locations =
      let (sub, ok) = set_mocked_locations a.sub time_interval locations in
      let cached = record a { sub = sub } in
      if not ok
      then (cached, errcode_not_supported)
      else (send_report_mock_location_event cached, errcode_success)

  -- SendMessage: the event that is sent, and the code that is written to the reply. `none` is where
  -- nothing is sent, or nothing written; `accepted` is whether the handler takes the event.
  unfoldable pub send_message :
      (o : ParcelOps D)
      → Bool
      → PassiveAbility D
      → PassiveInterfaceCode
      → o.P
      → Option (Event D) × Option LocationErrCode
  send_message o accepted a code_set_mocked_locations parcel =
      let (time_interval, locations) = read_mocked o parcel in
      if not a.sub.mock_enabled
      then (none, some errcode_not_supported)
      else if accepted
      then (some (event_set_mocked_locations time_interval locations), some errcode_success)
      else (none, some errcode_service_unavailable)
  send_message o accepted a code_other parcel = (none, none)

  -- The state after an event, and whether the ability is asked to be unloaded.
  unfoldable pub process_event : Event D → PassiveAbility D → PassiveAbility D × Bool
  process_event (event_set_mocked_locations time_interval locations) a =
      let a' = (set_mocked a time_interval locations).0 in (a', unload_passive_system_ability a')
  process_event event_other a = (a, unload_passive_system_ability a)

  -- Mocked locations never stay in the passive ability: where mocking is enabled their interval is
  -- kept and they are dropped at once, and where it is not the setting is refused without effect.
  pub set_mocked_lem :
      (a : PassiveAbility D) (time_interval : ℤ) (locations : List (Location D))
      → set_mocked a time_interval locations ≡ (
          if a.sub.mock_enabled
          then (
            record a { sub = record a.sub { mock_time_interval = time_interval; mock_loc = [] } },
            errcode_success,
          )
          else (a, errcode_not_supported))
  unfolding set_mocked set_mocked_locations cache_location_mock clear_location_mock
      send_report_mock_location_event
  set_mocked_lem a time_interval locations = ground arith
