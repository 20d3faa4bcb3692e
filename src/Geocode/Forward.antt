-- ===== src/Geocode/Forward.antt =====
-- The geocoding calls of services/location_locator/locator/source/locator_ability.cpp, which send a
-- message to the geocoding service, and how frameworks/native/source/locator_impl.cpp reads the
-- addresses that come back. A parameter: `fresh`, a new parcel. The descriptor is always written.
use gitee_oh_base_location.Base.{
  ℕ, Bool, List, [], false, if◌then◌else◌, int_eq, length, nat_eq, not, pos, string_eq, suc, true,
  zero, ℤ, ◌==◌, ◌∷◌,
}
use gitee_oh_base_location.ErrCode.{
  LocationErrCode, err_code, errcode_success, errcode_service_unavailable,
}
use gitee_oh_base_location.Parcel.{ParcelOps, int32, double, string16}
use gitee_oh_base_location.Geocode.{
  GeoAddress, GeocodingMockInfo, address_unmarshalling, mock_info_marshalling,
}
use gitee_oh_base_location.Geocode.Service.{
  GeoConvertService, GeoConvertInterfaceCode, Process, GeoEnv, is_available, get_from_coordinate,
  get_from_location_name_by_boundary, enable_reverse_geocode_mock, disable_reverse_geocode_mock,
  set_reverse_geocode_mockinfo, on_remote_request, write_code, rounds_of,
}

-- What SendGeoRequest finds: no manager of system abilities, no remote object, or the service.
pub data Remote : Type 0 where
  no_manager no_object connected : Remote

-- The most addresses that the client reads.
abbrev pub max_result : ℕ
max_result = 10

module _ {D : Type 0} (o : ParcelOps D) where
  open o use {P, write, read_int32, read_bool, read_double, read_string16}

  unfoldable pub send_geo_request :
      GeoEnv D P
      → Process
      → Remote
      → GeoConvertInterfaceCode
      → P
      → GeoConvertService D
      → P
      → (GeoConvertService D × P) × LocationErrCode
  send_geo_request env locator no_manager code message s reply =
      ((s, reply), errcode_service_unavailable)
  send_geo_request env locator no_object code message s reply =
      ((s, write_code o errcode_service_unavailable reply), errcode_service_unavailable)
  send_geo_request env locator connected code message s reply =
      let handled = on_remote_request o env locator true code message s reply in
      ((handled.service, handled.reply), errcode_success)

  -- The answer, and the code that is read from the reply.
  unfoldable pub ability_is_geo_convert_available :
      GeoEnv D P → Process → Remote → P → GeoConvertService D → (GeoConvertService D × Bool) × ℤ
  ability_is_geo_convert_available env locator remote fresh s =
      let ((s', reply), sent) = send_geo_request env locator remote is_available fresh s fresh in
      let (code, p) = read_int32 reply in
      let (answer, rest) = read_bool p in
      ((s', if code == pos (err_code errcode_success) then answer else false), code)

  -- The message to the service, which has its own copies of what the message of the caller holds.
  unfoldable pub coordinate_message : P → P → P
  coordinate_message fresh message =
      let (latitude, p₁) = read_double message in
      let (longitude, p₂) = read_double p₁ in
      let (max_items, p₃) = read_int32 p₂ in
      let (locale_size, p₄) = read_int32 p₃ in
      let (language, p₅) = read_string16 p₄ in
      let (country, p₆) = read_string16 p₅ in
      let (variant, p₇) = read_string16 p₆ in
      let (last, p₈) = read_string16 p₇ in
      let m = write (double latitude) fresh in
      let m = write (double longitude) m in
      let m = write (int32 max_items) m in
      let m = write (int32 locale_size) m in
      let m = write (string16 language) m in
      let m = write (string16 country) m in
      let m = write (string16 variant) m in write (string16 last) m

  unfoldable pub ability_get_address_by_coordinate :
      GeoEnv D P → Process → Remote → P → P → GeoConvertService D → P → GeoConvertService D × P
  ability_get_address_by_coordinate env locator remote fresh message s reply =
      (send_geo_request env locator remote get_from_coordinate (coordinate_message fresh message) s
        reply).0

  unfoldable pub location_name_message : P → P → P
  location_name_message fresh message =
      let (description, p₁) = read_string16 message in
      let (min_latitude, p₂) = read_double p₁ in
      let (min_longitude, p₃) = read_double p₂ in
      let (max_latitude, p₄) = read_double p₃ in
      let (max_longitude, p₅) = read_double p₄ in
      let (max_items, p₆) = read_int32 p₅ in
      let (locale_size, p₇) = read_int32 p₆ in
      let (language, p₈) = read_string16 p₇ in
      let (country, p₉) = read_string16 p₈ in
      let (variant, q₁) = read_string16 p₉ in
      let (last, q₂) = read_string16 q₁ in
      let m = write (string16 description) fresh in
      let m = write (double min_latitude) m in
      let m = write (double min_longitude) m in
      let m = write (double max_latitude) m in
      let m = write (double max_longitude) m in
      let m = write (int32 max_items) m in
      let m = write (int32 locale_size) m in
      let m = write (string16 language) m in
      let m = write (string16 country) m in
      let m = write (string16 variant) m in write (string16 last) m

  unfoldable pub ability_get_address_by_location_name :
      GeoEnv D P → Process → Remote → P → P → GeoConvertService D → P → GeoConvertService D × P
  ability_get_address_by_location_name env locator remote fresh message s reply =
      (send_geo_request env locator remote get_from_location_name_by_boundary
        (location_name_message fresh message) s reply).0

  unfoldable pub ability_enable_reverse_geocoding_mock :
      GeoEnv D P → Process → Remote → P → GeoConvertService D → GeoConvertService D × ℤ
  ability_enable_reverse_geocoding_mock env locator remote fresh s =
      let ((s', reply), sent) =
        send_geo_request env locator remote enable_reverse_geocode_mock fresh s fresh in
      (s', (read_int32 reply).0)

  unfoldable pub ability_disable_reverse_geocoding_mock :
      GeoEnv D P → Process → Remote → P → GeoConvertService D → GeoConvertService D × ℤ
  ability_disable_reverse_geocoding_mock env locator remote fresh s =
      let ((s', reply), sent) =
        send_geo_request env locator remote disable_reverse_geocode_mock fresh s fresh in
      (s', (read_int32 reply).0)

  unfoldable pub write_mock_infos : List (GeocodingMockInfo D) → P → P
  write_mock_infos [] p = p
  write_mock_infos (info ∷ rest) p = write_mock_infos rest (mock_info_marshalling o info p)

  unfoldable pub ability_set_reverse_geocoding_mock_info :
      GeoEnv D P
      → Process
      → Remote
      → P
      → List (GeocodingMockInfo D)
      → GeoConvertService D
      → GeoConvertService D × ℤ
  ability_set_reverse_geocoding_mock_info env locator remote fresh infos s =
      let message = write_mock_infos infos (write (int32 (pos (length infos))) fresh) in
      let ((s', reply), sent) =
        send_geo_request env locator remote set_reverse_geocode_mockinfo message s fresh in
      (s', (read_int32 reply).0)

  unfoldable pub read_addresses : ℕ → D → P → List (GeoAddress D)
  read_addresses zero zero_double reply = []
  read_addresses (suc rounds) zero_double reply =
      let (a, rest) = address_unmarshalling o zero_double reply in
      a ∷ read_addresses rounds zero_double rest

  -- The list that the client gets. On another code it stays empty.
  unfoldable pub reply_addresses : D → P → List (GeoAddress D)
  reply_addresses zero_double reply =
      let (code, p₁) = read_int32 reply in
      let (result_size, p₂) = read_int32 p₁ in
      if not (code == pos (err_code errcode_success))
      then []
      else read_addresses (rounds_of max_result result_size) zero_double p₂
