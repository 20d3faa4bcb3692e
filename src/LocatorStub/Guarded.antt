-- ===== src/LocatorStub/Guarded.antt =====
-- Who may make the stub call the locator: the permissions that each operation needs, listed apart from
-- the handlers, and that no message gets past them.
use gitee_oh_base_location.Base.{
  ==_refl, Bool, ap, arith, false, int_eq, nat_eq, refl, string_eq, sym, true, ◌&&◌, ◌==◌, ◌∙◌, ◌≡◌,
}
use gitee_oh_base_location.Parcel.{ParcelOps}
use gitee_oh_base_location.LocatorAbility.{AppIdentity}
use gitee_oh_base_location.LocatorStub.{
  Guards, reset_calling_identity, Answer, LocatorCall, passed, root_uid, location_permission,
  precise_location_permissions, settings_permission, system_permission, location_switch_state,
  register_switch_callback, start_locating, stop_locating, get_cache_location, enable_ability,
  update_sa_ability, is_location_privacy_confirmed, set_location_privacy_confirm_status,
  mock_location, register_country_code_callback, proxy_uid_for_freeze, reset_all_proxy,
  enable_reverse_geocoding_mock, disable_reverse_geocoding_mock, set_reverse_geocoding_mock_info,
  register_gnss_status_callback, unregister_gnss_status_callback, register_nmea_message_callback,
  unregister_nmea_message_callback, register_cached_location_callback,
  unregister_cached_location_callback, get_cached_gnss_locations_size, flush_cached_gnss_locations,
  add_fence, remove_fence,
}
use gitee_oh_base_location.LocatorStub.Handlers.{
  pre_get_switch_state, pre_register_switch_callback, pre_unregister_switch_callback,
  pre_start_locating, pre_stop_locating, pre_get_cache_location, pre_enable_ability,
  pre_update_sa_ability, pre_is_location_privacy_confirmed, pre_set_location_privacy_confirm_status,
  pre_get_iso_country_code, pre_enable_location_mock, pre_disable_location_mock,
  pre_set_mocked_locations, pre_register_country_code_callback,
  pre_unregister_country_code_callback, pre_proxy_uid_for_freeze, pre_reset_all_proxy,
  pre_report_location, pre_is_geo_convert_available, pre_get_address_by_coordinate,
  pre_get_address_by_location_name, pre_enable_reverse_geocoding_mock,
  pre_disable_reverse_geocoding_mock, pre_set_reverse_geocoding_mock_info,
  pre_register_gnss_status_callback, pre_unregister_gnss_status_callback,
  pre_register_nmea_message_callback, pre_unregister_nmea_message_callback,
  pre_register_nmea_message_callback_v9, pre_unregister_nmea_message_callback_v9,
  pre_start_cache_locating, pre_stop_cache_locating, pre_get_cached_gnss_locations_size,
  pre_flush_cached_gnss_locations, pre_send_command, pre_add_fence, pre_remove_fence,
}
use gitee_oh_base_location.LocatorStub.Dispatch.{
  LocatorInterfaceCode, code_get_switch_state, code_register_switch_callback,
  code_unregister_switch_callback, code_start_locating, code_stop_locating, code_get_cache_location,
  code_enable_ability, code_update_sa_ability, code_is_location_privacy_confirmed,
  code_set_location_privacy_confirm_status, code_get_iso_country_code, code_enable_location_mock,
  code_disable_location_mock, code_set_mocked_locations, code_register_country_code_callback,
  code_unregister_country_code_callback, code_proxy_uid_for_freeze, code_reset_all_proxy,
  code_report_location, code_is_geo_convert_available, code_get_address_by_coordinate,
  code_get_address_by_location_name, code_enable_reverse_geocoding_mock,
  code_disable_reverse_geocoding_mock, code_set_reverse_geocoding_mock_info,
  code_register_gnss_status_callback, code_unregister_gnss_status_callback,
  code_register_nmea_message_callback, code_unregister_nmea_message_callback,
  code_register_nmea_message_callback_v9, code_unregister_nmea_message_callback_v9,
  code_start_cache_locating, code_stop_cache_locating, code_get_cached_gnss_locations_size,
  code_flush_cached_gnss_locations, code_send_command, code_add_fence, code_remove_fence,
  code_unknown, handle_code, on_remote_request,
}

-- The permission that a call needs.
abbrev pub may : {D P : Type 0} → Guards → AppIdentity → LocatorCall D P → Bool
may s identity (start_locating config callback caller) =
    location_switch_state s && location_permission s identity
may s identity (stop_locating callback) = location_permission s identity
may s identity (get_cache_location caller) =
    location_switch_state s && location_permission s identity
may s identity (enable_ability is_enabled) =
    system_permission s identity && settings_permission s identity
may s identity update_sa_ability = system_permission s identity
may s identity (is_location_privacy_confirmed type) = system_permission s identity
may s identity (set_location_privacy_confirm_status type is_confirmed) =
    system_permission s identity && settings_permission s identity
may s identity (mock_location message) = system_permission s identity
may s identity enable_reverse_geocoding_mock = system_permission s identity
may s identity disable_reverse_geocoding_mock = system_permission s identity
may s identity (set_reverse_geocoding_mock_info message) = system_permission s identity
may s identity (proxy_uid_for_freeze uid is_proxy) =
    location_permission s identity && identity.uid == root_uid
may s identity reset_all_proxy = location_permission s identity && identity.uid == root_uid
may s identity (register_gnss_status_callback client uid) = location_permission s identity
may s identity (unregister_gnss_status_callback client) = location_permission s identity
may s identity (register_nmea_message_callback client uid) = location_permission s identity
may s identity (unregister_nmea_message_callback client) = location_permission s identity
may s identity (register_cached_location_callback period wake_up callback bundle) =
    location_switch_state s && location_permission s identity
may s identity (unregister_cached_location_callback callback) = location_permission s identity
may s identity get_cached_gnss_locations_size =
    location_switch_state s && location_permission s identity
may s identity flush_cached_gnss_locations =
    location_switch_state s && location_permission s identity
may s identity (add_fence fence) = location_switch_state s && location_permission s identity
may s identity (remove_fence fence) = location_switch_state s && location_permission s identity
may s identity _ = true

-- The uid that a call acts for is that of the caller.
abbrev pub acts_for : {D P : Type 0} → AppIdentity → LocatorCall D P → Bool
acts_for identity (register_switch_callback client uid) = uid == identity.uid
acts_for identity (register_country_code_callback client uid) = uid == identity.uid
acts_for identity (register_gnss_status_callback client uid) = uid == identity.uid
acts_for identity (register_nmea_message_callback client uid) = uid == identity.uid
acts_for identity (start_locating config callback caller) = caller.uid == identity.uid
acts_for identity (get_cache_location caller) = caller.uid == identity.uid
acts_for identity _ = true

abbrev checks : {D P : Type 0} → Guards → AppIdentity → Answer D P → Bool
checks s identity (passed c) = may s identity c && acts_for identity c
checks s identity _ = true

module _ {D : Type 0} (o : ParcelOps D) (zero_double : D) (s : Guards)
    (identity : AppIdentity) where
  handle_code-checks :
      (code : LocatorInterfaceCode) (p : o.P)
      → checks s identity (handle_code o zero_double s identity code p) ≡ true
  unfolding handle_code pre_get_switch_state pre_register_switch_callback
      pre_unregister_switch_callback pre_start_locating pre_stop_locating pre_get_cache_location
      pre_enable_ability pre_update_sa_ability pre_is_location_privacy_confirmed
      pre_set_location_privacy_confirm_status pre_get_iso_country_code pre_enable_location_mock
      pre_disable_location_mock pre_set_mocked_locations pre_register_country_code_callback
      pre_unregister_country_code_callback pre_proxy_uid_for_freeze pre_reset_all_proxy
      pre_report_location pre_is_geo_convert_available pre_get_address_by_coordinate
      pre_get_address_by_location_name pre_enable_reverse_geocoding_mock
      pre_disable_reverse_geocoding_mock pre_set_reverse_geocoding_mock_info
      pre_register_gnss_status_callback pre_unregister_gnss_status_callback
      pre_register_nmea_message_callback pre_unregister_nmea_message_callback
      pre_register_nmea_message_callback_v9 pre_unregister_nmea_message_callback_v9
      pre_start_cache_locating pre_stop_cache_locating pre_get_cached_gnss_locations_size
      pre_flush_cached_gnss_locations pre_send_command pre_add_fence pre_remove_fence
      precise_location_permissions location_permission reset_calling_identity
  handle_code-checks code_get_switch_state p = ground (arith, ==_refl identity.uid)
  handle_code-checks code_register_switch_callback p = ground (arith, ==_refl identity.uid)
  handle_code-checks code_unregister_switch_callback p = ground (arith, ==_refl identity.uid)
  handle_code-checks code_start_locating p = ground (arith, ==_refl identity.uid)
  handle_code-checks code_stop_locating p = ground (arith, ==_refl identity.uid)
  handle_code-checks code_get_cache_location p = ground (arith, ==_refl identity.uid)
  handle_code-checks code_enable_ability p = ground (arith, ==_refl identity.uid)
  handle_code-checks code_update_sa_ability p = ground (arith, ==_refl identity.uid)
  handle_code-checks code_is_location_privacy_confirmed p = ground (arith, ==_refl identity.uid)
  handle_code-checks code_set_location_privacy_confirm_status p =
      ground (arith, ==_refl identity.uid)
  handle_code-checks code_get_iso_country_code p = ground (arith, ==_refl identity.uid)
  handle_code-checks code_enable_location_mock p = ground (arith, ==_refl identity.uid)
  handle_code-checks code_disable_location_mock p = ground (arith, ==_refl identity.uid)
  handle_code-checks code_set_mocked_locations p = ground (arith, ==_refl identity.uid)
  handle_code-checks code_register_country_code_callback p = ground (arith, ==_refl identity.uid)
  handle_code-checks code_unregister_country_code_callback p = ground (arith, ==_refl identity.uid)
  handle_code-checks code_proxy_uid_for_freeze p = ground (arith, ==_refl identity.uid)
  handle_code-checks code_reset_all_proxy p = ground (arith, ==_refl identity.uid)
  handle_code-checks code_report_location p = ground (arith, ==_refl identity.uid)
  handle_code-checks code_is_geo_convert_available p = ground (arith, ==_refl identity.uid)
  handle_code-checks code_get_address_by_coordinate p = ground (arith, ==_refl identity.uid)
  handle_code-checks code_get_address_by_location_name p = ground (arith, ==_refl identity.uid)
  handle_code-checks code_enable_reverse_geocoding_mock p = ground (arith, ==_refl identity.uid)
  handle_code-checks code_disable_reverse_geocoding_mock p = ground (arith, ==_refl identity.uid)
  handle_code-checks code_set_reverse_geocoding_mock_info p = ground (arith, ==_refl identity.uid)
  handle_code-checks code_register_gnss_status_callback p = ground (arith, ==_refl identity.uid)
  handle_code-checks code_unregister_gnss_status_callback p = ground (arith, ==_refl identity.uid)
  handle_code-checks code_register_nmea_message_callback p = ground (arith, ==_refl identity.uid)
  handle_code-checks code_unregister_nmea_message_callback p = ground (arith, ==_refl identity.uid)
  handle_code-checks code_register_nmea_message_callback_v9 p = ground (arith, ==_refl identity.uid)
  handle_code-checks code_unregister_nmea_message_callback_v9 p =
      ground (arith, ==_refl identity.uid)
  handle_code-checks code_start_cache_locating p = ground (arith, ==_refl identity.uid)
  handle_code-checks code_stop_cache_locating p = ground (arith, ==_refl identity.uid)
  handle_code-checks code_get_cached_gnss_locations_size p = ground (arith, ==_refl identity.uid)
  handle_code-checks code_flush_cached_gnss_locations p = ground (arith, ==_refl identity.uid)
  handle_code-checks code_send_command p = ground (arith, ==_refl identity.uid)
  handle_code-checks code_add_fence p = ground (arith, ==_refl identity.uid)
  handle_code-checks code_remove_fence p = ground (arith, ==_refl identity.uid)
  handle_code-checks code_unknown p = refl

  -- A message makes the locator do something only if its sender may: each operation needs the
  -- permissions that are listed for it, the switch where it locates, and the root user where it
  -- freezes, but for the operations for which none is listed, of which reporting a location is one;
  -- and a callback is registered, and a location asked for, in the name of no other uid than the
  -- sender's.
  pub on_remote_request-may :
      (own_token : Bool) (code : LocatorInterfaceCode) (p : o.P) (c : LocatorCall D o.P)
      → on_remote_request o zero_double s identity own_token code p ≡ passed c
      → (may s identity c ≡ true) × (acts_for identity c ≡ true) × (own_token ≡ true)
  unfolding on_remote_request
  on_remote_request-may false code p c h = ground (arith, h)
  on_remote_request-may true code p c h =
      let ok : checks s identity (passed c) ≡ true =
        ap (checks s identity) (sym h) ∙ handle_code-checks code p in
      ground (arith, ok)
