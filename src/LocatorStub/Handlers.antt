-- ===== src/LocatorStub/Handlers.antt =====
-- The handlers of locator_skeleton.cpp, one for each code of the interface.
use gitee_oh_base_location.Base.{
  if◌then◌else◌, int_eq, nat_eq, none, not, some, string_eq, ◌==◌, ◌||◌,
}
use gitee_oh_base_location.ErrCode.{
  errcode_permission_denied, errcode_service_unavailable, errcode_invalid_param,
}
use gitee_oh_base_location.Parcel.{ParcelOps}
use gitee_oh_base_location.Location.{new_request_config, config_read_from_parcel, read_from_parcel}
use gitee_oh_base_location.Mock.{read_mocked}
use gitee_oh_base_location.LocatorAbility.{AppIdentity}
use gitee_oh_base_location.LocatorAbility.Operations.{
  enable_location_mock, disable_location_mock, set_mocked_locations,
}
use gitee_oh_base_location.LocatorStub.{
  reset_calling_identity, Guards, Answer, passed, refused, refused_silently, Geofence,
  with_location_permission, with_precise_permissions, with_settings_permission,
  with_system_permission, with_root, with_switch, get_switch_state, register_switch_callback,
  unregister_switch_callback, start_locating, stop_locating, get_cache_location, enable_ability,
  update_sa_ability, is_location_privacy_confirmed, set_location_privacy_confirm_status,
  get_iso_country_code, mock_location, register_country_code_callback,
  unregister_country_code_callback, proxy_uid_for_freeze, reset_all_proxy, report_location,
  is_geo_convert_available, get_address_by_coordinate, get_address_by_location_name,
  enable_reverse_geocoding_mock, disable_reverse_geocoding_mock, set_reverse_geocoding_mock_info,
  register_gnss_status_callback, unregister_gnss_status_callback, register_nmea_message_callback,
  unregister_nmea_message_callback, register_cached_location_callback,
  unregister_cached_location_callback, get_cached_gnss_locations_size, flush_cached_gnss_locations,
  send_command, add_fence, remove_fence,
}

module _ {D : Type 0} (o : ParcelOps D) (zero_double : D) (s : Guards) (identity : AppIdentity)
    (p : o.P) where
  open o use {P, read_int32, read_bool, read_double, read_string, read_string16, read_remote_object}

  unfoldable pub read_fence : Geofence D
  read_fence =
      let (scenario, p₁) = read_int32 p in
      let (latitude, p₂) = read_double p₁ in
      let (longitude, p₃) = read_double p₂ in
      let (radius, p₄) = read_double p₃ in
      let (expiration, _) = read_double p₄ in
      record {
        scenario = scenario;
        latitude = latitude;
        longitude = longitude;
        radius = radius;
        expiration = expiration;
      }

  unfoldable pub pre_get_switch_state : Answer D P
  pre_get_switch_state = passed get_switch_state

  unfoldable pub pre_register_switch_callback : Answer D P
  pre_register_switch_callback =
      passed (register_switch_callback (read_remote_object p).0 identity.uid)

  unfoldable pub pre_unregister_switch_callback : Answer D P
  pre_unregister_switch_callback = passed (unregister_switch_callback (read_remote_object p).0)

  unfoldable pub pre_start_locating : Answer D P
  pre_start_locating =
      let (config, p₁) = config_read_from_parcel o (new_request_config zero_double) p in
      with_switch s (
        with_location_permission s identity (elim (read_remote_object p₁).0 [
          | none ↦ refused errcode_service_unavailable
          | some callback ↦ passed (start_locating config callback identity)
        ]))

  unfoldable pub pre_stop_locating : Answer D P
  pre_stop_locating = with_location_permission s identity (elim (read_remote_object p).0 [
    | none ↦ refused errcode_service_unavailable
    | some callback ↦ passed (stop_locating callback)
  ])

  unfoldable pub pre_get_cache_location : Answer D P
  pre_get_cache_location =
      with_switch s (with_location_permission s identity (passed (get_cache_location identity)))

  unfoldable pub pre_enable_ability : Answer D P
  pre_enable_ability =
      with_system_permission s identity
        (with_settings_permission s identity (passed (enable_ability (read_bool p).0)))

  unfoldable pub pre_update_sa_ability : Answer D P
  pre_update_sa_ability = with_system_permission s identity (passed update_sa_ability)

  unfoldable pub pre_is_location_privacy_confirmed : Answer D P
  pre_is_location_privacy_confirmed =
      with_system_permission s identity (passed (is_location_privacy_confirmed (read_int32 p).0))

  -- The arguments are read in the order in which they stand.
  unfoldable pub pre_set_location_privacy_confirm_status : Answer D P
  pre_set_location_privacy_confirm_status =
      let (type, p₁) = read_int32 p in
      with_system_permission s identity (
        with_settings_permission s identity
          (passed (set_location_privacy_confirm_status type (read_bool p₁).0)))

  unfoldable pub pre_get_iso_country_code : Answer D P
  pre_get_iso_country_code = passed get_iso_country_code

  unfoldable pub pre_enable_location_mock : Answer D P
  pre_enable_location_mock =
      with_system_permission s identity (passed (mock_location enable_location_mock))

  unfoldable pub pre_disable_location_mock : Answer D P
  pre_disable_location_mock =
      with_system_permission s identity (passed (mock_location disable_location_mock))

  unfoldable pub pre_set_mocked_locations : Answer D P
  pre_set_mocked_locations =
      let (time_interval, locations) = read_mocked o p in
      with_system_permission s identity
        (passed (mock_location (set_mocked_locations time_interval locations)))

  unfoldable pub pre_register_country_code_callback : Answer D P
  pre_register_country_code_callback = elim (read_remote_object p).0 [
    | none ↦ refused errcode_service_unavailable
    | some client ↦ passed (register_country_code_callback client identity.uid)
  ]

  unfoldable pub pre_unregister_country_code_callback : Answer D P
  pre_unregister_country_code_callback =
      passed (unregister_country_code_callback (read_remote_object p).0)

  unfoldable pub pre_proxy_uid_for_freeze : Answer D P
  pre_proxy_uid_for_freeze =
      let (uid, p₁) = read_int32 p in
      with_location_permission s identity
        (with_root s identity (passed (proxy_uid_for_freeze uid (read_bool p₁).0)))

  unfoldable pub pre_reset_all_proxy : Answer D P
  pre_reset_all_proxy =
      with_location_permission s identity (with_root s identity (passed reset_all_proxy))

  -- The ids of the caller are asked for again, after OnRemoteRequest has reset them to those of the
  -- locator's own process: no sender is refused.
  unfoldable pub pre_report_location : Answer D P
  pre_report_location =
      let (calling_uid, calling_pid) = reset_calling_identity s in
      let (system_ability, p₁) = read_string p in
      if not (calling_uid == s.own_uid) || not (calling_pid == s.own_pid)
      then refused_silently errcode_permission_denied
      else passed (report_location system_ability (read_from_parcel o p₁).0)

  unfoldable pub pre_is_geo_convert_available : Answer D P
  pre_is_geo_convert_available = passed is_geo_convert_available

  unfoldable pub pre_get_address_by_coordinate : Answer D P
  pre_get_address_by_coordinate = passed (get_address_by_coordinate p)

  unfoldable pub pre_get_address_by_location_name : Answer D P
  pre_get_address_by_location_name = passed (get_address_by_location_name p)

  unfoldable pub pre_enable_reverse_geocoding_mock : Answer D P
  pre_enable_reverse_geocoding_mock =
      with_system_permission s identity (passed enable_reverse_geocoding_mock)

  unfoldable pub pre_disable_reverse_geocoding_mock : Answer D P
  pre_disable_reverse_geocoding_mock =
      with_system_permission s identity (passed disable_reverse_geocoding_mock)

  -- The mock information is not read here.
  unfoldable pub pre_set_reverse_geocoding_mock_info : Answer D P
  pre_set_reverse_geocoding_mock_info =
      with_system_permission s identity (passed (set_reverse_geocoding_mock_info p))

  unfoldable pub pre_register_gnss_status_callback : Answer D P
  pre_register_gnss_status_callback =
      with_location_permission s identity
        (passed (register_gnss_status_callback (read_remote_object p).0 identity.uid))

  unfoldable pub pre_unregister_gnss_status_callback : Answer D P
  pre_unregister_gnss_status_callback =
      with_location_permission s identity
        (passed (unregister_gnss_status_callback (read_remote_object p).0))

  unfoldable pub pre_register_nmea_message_callback : Answer D P
  pre_register_nmea_message_callback =
      with_location_permission s identity
        (passed (register_nmea_message_callback (read_remote_object p).0 identity.uid))

  unfoldable pub pre_unregister_nmea_message_callback : Answer D P
  pre_unregister_nmea_message_callback =
      with_location_permission s identity
        (passed (unregister_nmea_message_callback (read_remote_object p).0))

  unfoldable pub pre_register_nmea_message_callback_v9 : Answer D P
  pre_register_nmea_message_callback_v9 =
      with_precise_permissions s identity
        (passed (register_nmea_message_callback (read_remote_object p).0 identity.uid))

  unfoldable pub pre_unregister_nmea_message_callback_v9 : Answer D P
  pre_unregister_nmea_message_callback_v9 =
      with_precise_permissions s identity
        (passed (unregister_nmea_message_callback (read_remote_object p).0))

  unfoldable pub pre_start_cache_locating : Answer D P
  pre_start_cache_locating =
      let (period_sec, p₁) = read_int32 p in
      let (wake_up, p₂) = read_bool p₁ in
      let (remote, p₃) = read_remote_object p₂ in
      let (bundle_name, _) = read_string16 p₃ in
      with_location_permission s identity (
        with_switch s (elim remote [
          | none ↦ refused errcode_service_unavailable
          | some callback ↦
              if bundle_name == ""
              then refused errcode_invalid_param
              else passed
                  (register_cached_location_callback period_sec wake_up callback bundle_name)
        ]))

  unfoldable pub pre_stop_cache_locating : Answer D P
  pre_stop_cache_locating = with_location_permission s identity (elim (read_remote_object p).0 [
    | none ↦ refused errcode_service_unavailable
    | some callback ↦ passed (unregister_cached_location_callback callback)
  ])

  unfoldable pub pre_get_cached_gnss_locations_size : Answer D P
  pre_get_cached_gnss_locations_size =
      with_switch s (with_location_permission s identity (passed get_cached_gnss_locations_size))

  unfoldable pub pre_flush_cached_gnss_locations : Answer D P
  pre_flush_cached_gnss_locations =
      with_switch s (with_location_permission s identity (passed flush_cached_gnss_locations))

  unfoldable pub pre_send_command : Answer D P
  pre_send_command =
      let (scenario, p₁) = read_int32 p in passed (send_command scenario (read_bool p₁).0)

  unfoldable pub pre_add_fence : Answer D P
  pre_add_fence =
      with_switch s (with_location_permission s identity (passed (add_fence read_fence)))

  unfoldable pub pre_remove_fence : Answer D P
  pre_remove_fence =
      with_switch s (with_location_permission s identity (passed (remove_fence read_fence)))
