-- ===== src/PassiveAbility/Tests.antt =====
-- A run of the passive ability.
use gitee_oh_base_location.Base.{ℕ, [], pos, refl, true, ◌∷◌, ◌≡◌}
use gitee_oh_base_location.Lifecycle.{new_lifecycle}
use gitee_oh_base_location.Samples.{place}
use gitee_oh_base_location.SubAbility.{
  new_sub_ability, get_request_num, set_mocked_locations, cache_location_mock, clear_location_mock,
}
use gitee_oh_base_location.WorkRecord.{new_record, size}
use gitee_oh_base_location.PassiveAbility.{
  PassiveAbility, new_passive_ability, set_mocked, check_if_passive_connecting,
  send_report_mock_location_event, unload_passive_system_ability, process_event,
  event_set_mocked_locations,
}

abbrev idle : PassiveAbility ℕ
unfolding new_passive_ability new_sub_ability new_record new_lifecycle
idle = new_passive_ability

-- Without mocking, the event leaves the ability idle, and it is asked to be unloaded.
idle-unloaded :
    process_event (event_set_mocked_locations (pos 1) (place 1 ∷ [])) idle ≡ (idle, true)
unfolding idle process_event set_mocked set_mocked_locations cache_location_mock clear_location_mock
    send_report_mock_location_event unload_passive_system_ability check_if_passive_connecting
    get_request_num size
idle-unloaded = refl
