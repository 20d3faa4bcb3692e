-- ===== src/LocatorAbility/Operations.antt =====
-- The rest of locator_ability.cpp: the switch is written, locations are reported and given, mocking is
-- passed on to the abilities, and the handler runs its events. Loading an ability and the settings
-- database are the system's: whether a write succeeds and which abilities can be reached are
-- parameters. What is sent to the handler or to an ability is part of the result.
use gitee_oh_base_location.Base.{
  ℕ, Bool, List, Option, String, [], any_by, filter_by, if◌then◌else◌, int_eq, map, nat_eq, none,
  not, pos, some, string_eq, ℤ, ◌&&◌, ◌++◌, ◌==◌, ◌∷◌,
}
use gitee_oh_base_location.ErrCode.{
  LocationErrCode, errcode_success, errcode_switch_off, errcode_service_unavailable,
  errcode_locating_fail, errcode_invalid_param,
}
use gitee_oh_base_location.Common.{
  gnss_ability, network_ability, passive_ability, gnss_sa, network_locating_sa, nopower_locating_sa,
  SystemAbility,
}
use gitee_oh_base_location.Env.{Env}
use gitee_oh_base_location.Location.{Location}
use gitee_oh_base_location.RequestManager.Handlers.{handle_request}
use gitee_oh_base_location.ReportManager.{
  DoubleOps, on_report_location, get_last_location, get_permitted_location,
}
use gitee_oh_base_location.LocatorAbility.{
  LocatorAbility, AppIdentity, disabled, query_switch_state, check_sa_valid,
  update_sa_ability_handler, register_switch_callback, unregister_switch_callback,
}

-- The events of the locator's handler.
pub data LocatorEvent : Type 0 where
  event_update_sa event_retry_register_action event_init_request_manager : LocatorEvent
  event_apply_requirements event_unload_sa : LocatorEvent

-- A message to an ability about mocked locations.
pub data MockMessage (D : Type 0) : Type 0 where
  enable_location_mock disable_location_mock : MockMessage D
  set_mocked_locations : (time_interval : ℤ) (locations : List (Location D)) → MockMessage D

-- 30 seconds, in milliseconds, before an idle locator is unloaded.
abbrev pub retry_interval_of_unload_sa : ℕ
retry_interval_of_unload_sa = 30000

-- The ability is put into the map if it can be reached; an entry that is there stays.
unfoldable pub insert_ability : Env → SystemAbility → String → List String → List String
insert_ability env sa name names =
    if env.remote sa && not (any_by (λ n. n == name) names) then names ++ name ∷ [] else names

-- The delay of the task that unloads the locator, where one is posted: `registered` is whether there
-- is a callback for the country code.
unfoldable pub unload_sa_ability : Bool → Option ℕ
unload_sa_ability registered = if registered then none else some retry_interval_of_unload_sa

module _ {D : Type 0} where
  -- EnableAbility and the event that UpdateSaAbility sends.
  unfoldable pub enable_ability :
      Bool → LocatorAbility D → Bool → LocatorAbility D × (List LocatorEvent × LocationErrCode)
  enable_ability written l is_enabled =
      let mode_value = if is_enabled then pos 1 else pos 0 in
      let (l, state) = query_switch_state l in
      if mode_value == state
      then (l, ([], errcode_success))
      else if not written
      then (l, ([], errcode_service_unavailable))
      else (record l { switch_value = some mode_value }, (event_update_sa ∷ [], errcode_success))

  unfoldable pub get_switch_state : LocatorAbility D → LocatorAbility D × (ℤ × LocationErrCode)
  get_switch_state l = let (l, state) = query_switch_state l in (l, (state, errcode_success))

  -- `near_zero` is whether a coordinate is within PRECISION of 0.
  unfoldable pub get_cache_location :
      Env
      → DoubleOps D
      → (D → Bool)
      → LocatorAbility D
      → AppIdentity
      → Option (Location D) × LocationErrCode
  get_cache_location env ops near_zero l identity =
      let loc =
        get_permitted_location ops env l.report.offset_random identity.uid identity.token_id
          identity.first_token_id (get_last_location ops l.report) in
      elim loc [
        | none ↦ (none, errcode_locating_fail)
        | some place ↦
            if not (near_zero place.latitude) && not (near_zero place.longitude)
            then (some place, errcode_success)
            else (some place, errcode_locating_fail)
      ]

  unfoldable pub report_location :
      Env
      → DoubleOps D
      → LocatorAbility D
      → Location D
      → String
      → LocatorAbility D × LocationErrCode
  report_location env ops l location ability_name =
      let (l, state) = query_switch_state l in
      let (service, (report, ok)) =
        on_report_location ops env l.proxy_uids l.service l.report location ability_name in
      if state == disabled then (l, errcode_switch_off) else (
        record l { service = service; report = report },
        if ok then errcode_success else errcode_service_unavailable,
      )

  unfoldable pub update_proxy_map : Env → LocatorAbility D → LocatorAbility D
  update_proxy_map env l = record l {
    proxy_map = insert_ability env nopower_locating_sa passive_ability (
        insert_ability env network_locating_sa network_ability
          (insert_ability env gnss_sa gnss_ability l.proxy_map));
  }

  -- The abilities of the map, in the order of their names.
  unfoldable pub mapped_abilities : LocatorAbility D → List String
  mapped_abilities l =
      filter_by (λ name. any_by (λ n. n == name) l.proxy_map)
        (gnss_ability ∷ network_ability ∷ passive_ability ∷ [])

  -- ProcessLocationMockMsg, with the messages that go to the abilities. What they answer is dropped.
  unfoldable pub process_location_mock_msg :
      Env
      → MockMessage D
      → LocatorAbility D
      → LocatorAbility D × (List (String × MockMessage D) × LocationErrCode)
  process_location_mock_msg env message l =
      let l' = if not (check_sa_valid l) then update_proxy_map env l else l in
      (l', (map (λ name. (name, message)) (mapped_abilities l'), errcode_success))

  -- RegisterSwitchCallback and UnregisterSwitchCallback, of a callback that may be null or no switch
  -- callback.
  unfoldable pub checked_register_switch_callback :
      (ℕ → Bool) → LocatorAbility D → Option ℕ → ℤ → LocatorAbility D × LocationErrCode
  checked_register_switch_callback is_cast l none uid = (l, errcode_invalid_param)
  checked_register_switch_callback is_cast l (some callback) uid =
      if is_cast callback
      then (register_switch_callback l callback uid, errcode_success)
      else (l, errcode_invalid_param)

  unfoldable pub checked_unregister_switch_callback :
      (ℕ → Bool) → LocatorAbility D → Option ℕ → LocatorAbility D × LocationErrCode
  checked_unregister_switch_callback is_cast l none = (l, errcode_invalid_param)
  checked_unregister_switch_callback is_cast l (some callback) =
      if is_cast callback
      then (unregister_switch_callback l callback, errcode_success)
      else (l, errcode_invalid_param)

  -- LocatorHandler::ProcessEvent, for the events that change the state of the locator.
  unfoldable pub process_event : Env → LocatorEvent → LocatorAbility D → LocatorAbility D
  process_event env event_update_sa l = update_sa_ability_handler l
  process_event env event_apply_requirements l = record l { service = handle_request env l.service }
  process_event env _ l = l
