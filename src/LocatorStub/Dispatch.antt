-- ===== src/LocatorStub/Dispatch.antt =====
-- OnRemoteRequest: which handler a message goes to.
use gitee_oh_base_location.Base.{Bool, if◌then◌else◌, not}
use gitee_oh_base_location.ErrCode.{errcode_service_unavailable}
use gitee_oh_base_location.Parcel.{ParcelOps}
use gitee_oh_base_location.LocatorAbility.{AppIdentity}
use gitee_oh_base_location.LocatorStub.{Guards, Answer, refused, unsupported}
use gitee_oh_base_location.LocatorStub.Handlers.{
  pre_get_switch_state, pre_register_switch_callback, pre_unregister_switch_callback,
  pre_start_locating, pre_stop_locating, pre_get_cache_location, pre_enable_ability,
  pre_update_sa_ability, pre_is_location_privacy_confirmed, pre_set_location_privacy_confirm_status,
  pre_get_iso_country_code, pre_enable_location_mock, pre_disable_location_mock,
  pre_set_mocked_locations, pre_register_country_code_callback,
  pre_unregister_country_code_callback, pre_proxy_uid_for_freeze, pre_reset_all_proxy,
  pre_report_location, pre_is_geo_convert_available, pre_get_address_by_coordinate,
  pre_get_address_by_location_name, pre_enable_reverse_geocoding_mock,
  pre_disable_reverse_geocoding_mock, pre_set_reverse_geocoding_mock_info,
  pre_register_gnss_status_callback, pre_unregister_gnss_status_callback,
  pre_register_nmea_message_callback, pre_unregister_nmea_message_callback,
  pre_register_nmea_message_callback_v9, pre_unregister_nmea_message_callback_v9,
  pre_start_cache_locating, pre_stop_cache_locating, pre_get_cached_gnss_locations_size,
  pre_flush_cached_gnss_locations, pre_send_command, pre_add_fence, pre_remove_fence,
}

pub data LocatorInterfaceCode : Type 0 where
  code_get_switch_state code_register_switch_callback : LocatorInterfaceCode
  code_unregister_switch_callback code_start_locating : LocatorInterfaceCode
  code_stop_locating code_get_cache_location : LocatorInterfaceCode
  code_enable_ability code_update_sa_ability : LocatorInterfaceCode
  code_is_location_privacy_confirmed code_set_location_privacy_confirm_status : LocatorInterfaceCode
  code_get_iso_country_code code_enable_location_mock : LocatorInterfaceCode
  code_disable_location_mock code_set_mocked_locations : LocatorInterfaceCode
  code_register_country_code_callback code_unregister_country_code_callback : LocatorInterfaceCode
  code_proxy_uid_for_freeze code_reset_all_proxy : LocatorInterfaceCode
  code_report_location code_is_geo_convert_available : LocatorInterfaceCode
  code_get_address_by_coordinate code_get_address_by_location_name : LocatorInterfaceCode
  code_enable_reverse_geocoding_mock code_disable_reverse_geocoding_mock : LocatorInterfaceCode
  code_set_reverse_geocoding_mock_info code_register_gnss_status_callback : LocatorInterfaceCode
  code_unregister_gnss_status_callback code_register_nmea_message_callback : LocatorInterfaceCode
  code_unregister_nmea_message_callback code_register_nmea_message_callback_v9 :
      LocatorInterfaceCode
  code_unregister_nmea_message_callback_v9 code_start_cache_locating : LocatorInterfaceCode
  code_stop_cache_locating code_get_cached_gnss_locations_size : LocatorInterfaceCode
  code_flush_cached_gnss_locations code_send_command : LocatorInterfaceCode
  code_add_fence code_remove_fence : LocatorInterfaceCode
  code_unknown : LocatorInterfaceCode

module _ {D : Type 0} (o : ParcelOps D) (zero_double : D) (s : Guards)
    (identity : AppIdentity) where
  -- The entry of locatorHandleMap_.
  unfoldable pub handle_code : LocatorInterfaceCode → o.P → Answer D o.P
  handle_code code_get_switch_state p = pre_get_switch_state o zero_double s identity p
  handle_code code_register_switch_callback p =
      pre_register_switch_callback o zero_double s identity p
  handle_code code_unregister_switch_callback p =
      pre_unregister_switch_callback o zero_double s identity p
  handle_code code_start_locating p = pre_start_locating o zero_double s identity p
  handle_code code_stop_locating p = pre_stop_locating o zero_double s identity p
  handle_code code_get_cache_location p = pre_get_cache_location o zero_double s identity p
  handle_code code_enable_ability p = pre_enable_ability o zero_double s identity p
  handle_code code_update_sa_ability p = pre_update_sa_ability o zero_double s identity p
  handle_code code_is_location_privacy_confirmed p =
      pre_is_location_privacy_confirmed o zero_double s identity p
  handle_code code_set_location_privacy_confirm_status p =
      pre_set_location_privacy_confirm_status o zero_double s identity p
  handle_code code_get_iso_country_code p = pre_get_iso_country_code o zero_double s identity p
  handle_code code_enable_location_mock p = pre_enable_location_mock o zero_double s identity p
  handle_code code_disable_location_mock p = pre_disable_location_mock o zero_double s identity p
  handle_code code_set_mocked_locations p = pre_set_mocked_locations o zero_double s identity p
  handle_code code_register_country_code_callback p =
      pre_register_country_code_callback o zero_double s identity p
  handle_code code_unregister_country_code_callback p =
      pre_unregister_country_code_callback o zero_double s identity p
  handle_code code_proxy_uid_for_freeze p = pre_proxy_uid_for_freeze o zero_double s identity p
  handle_code code_reset_all_proxy p = pre_reset_all_proxy o zero_double s identity p
  handle_code code_report_location p = pre_report_location o zero_double s identity p
  handle_code code_is_geo_convert_available p =
      pre_is_geo_convert_available o zero_double s identity p
  handle_code code_get_address_by_coordinate p =
      pre_get_address_by_coordinate o zero_double s identity p
  handle_code code_get_address_by_location_name p =
      pre_get_address_by_location_name o zero_double s identity p
  handle_code code_enable_reverse_geocoding_mock p =
      pre_enable_reverse_geocoding_mock o zero_double s identity p
  handle_code code_disable_reverse_geocoding_mock p =
      pre_disable_reverse_geocoding_mock o zero_double s identity p
  handle_code code_set_reverse_geocoding_mock_info p =
      pre_set_reverse_geocoding_mock_info o zero_double s identity p
  handle_code code_register_gnss_status_callback p =
      pre_register_gnss_status_callback o zero_double s identity p
  handle_code code_unregister_gnss_status_callback p =
      pre_unregister_gnss_status_callback o zero_double s identity p
  handle_code code_register_nmea_message_callback p =
      pre_register_nmea_message_callback o zero_double s identity p
  handle_code code_unregister_nmea_message_callback p =
      pre_unregister_nmea_message_callback o zero_double s identity p
  handle_code code_register_nmea_message_callback_v9 p =
      pre_register_nmea_message_callback_v9 o zero_double s identity p
  handle_code code_unregister_nmea_message_callback_v9 p =
      pre_unregister_nmea_message_callback_v9 o zero_double s identity p
  handle_code code_start_cache_locating p = pre_start_cache_locating o zero_double s identity p
  handle_code code_stop_cache_locating p = pre_stop_cache_locating o zero_double s identity p
  handle_code code_get_cached_gnss_locations_size p =
      pre_get_cached_gnss_locations_size o zero_double s identity p
  handle_code code_flush_cached_gnss_locations p =
      pre_flush_cached_gnss_locations o zero_double s identity p
  handle_code code_send_command p = pre_send_command o zero_double s identity p
  handle_code code_add_fence p = pre_add_fence o zero_double s identity p
  handle_code code_remove_fence p = pre_remove_fence o zero_double s identity p
  handle_code code_unknown p = unsupported

  -- `own_token` is whether the message begins with the descriptor of the locator.
  unfoldable pub on_remote_request : Bool → LocatorInterfaceCode → o.P → Answer D o.P
  on_remote_request own_token code p =
      if not own_token then refused errcode_service_unavailable else handle_code code p
