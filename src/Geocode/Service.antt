-- ===== src/Geocode/Service.antt =====
-- services/location_geocode/geocode/source/geo_convert_service.cpp and geo_convert_skeleton.cpp: the
-- service that answers geocoding requests from a mock, and its stub. Parameters: the comparison of two
-- doubles, the process of the location hub, and what the stub of the system does with another code.
-- The singleton that unloads system abilities is there.
use gitee_oh_base_location.Base.{
  ℕ, Bool, List, [], false, if◌then◌else◌, int_eq, length, ltb, nat_eq, negsuc, not, pos, string_eq,
  suc, true, zero, ℤ, ◌&&◌, ◌==◌, ◌||◌, ◌∷◌,
}
use gitee_oh_base_location.ErrCode.{
  LocationErrCode, err_code, errcode_success, errcode_permission_denied, errcode_not_supported,
  errcode_service_unavailable, errcode_reverse_geocoding_fail,
}
use gitee_oh_base_location.Lifecycle.{Lifecycle, new_lifecycle}
use gitee_oh_base_location.Parcel.{ParcelOps, int32, bool}
use gitee_oh_base_location.Geocode.{
  GeoAddress, GeocodingMockInfo, address_marshalling, mock_info_read_from_parcel,
}

pub record GeoConvertService (D : Type 0) : Type 0 where
  pub mock_enabled : Bool
  pub lifecycle : Lifecycle
  pub mock_info : List (GeocodingMockInfo D)

unfoldable pub new_geo_service : {D : Type 0} → GeoConvertService D
new_geo_service = record { mock_enabled = false; lifecycle = new_lifecycle; mock_info = [] }

pub data GeoConvertInterfaceCode : Type 0 where
  is_available get_from_coordinate get_from_location_name_by_boundary : GeoConvertInterfaceCode
  enable_reverse_geocode_mock disable_reverse_geocode_mock : GeoConvertInterfaceCode
  set_reverse_geocode_mockinfo other_code : GeoConvertInterfaceCode

pub record Process : Type 0 where
  pub uid : ℤ
  pub pid : ℤ

-- `other` is the reply and the result for a code that the stub does not know.
pub record GeoEnv (D P : Type 0) : Type 0 where
  pub zero_double : D
  pub double_equal : D → D → Bool
  pub hub : Process
  pub other : P → P → P × ℤ

abbrev pub input_array_len_max : ℕ
input_array_len_max = 100

-- The number of rounds of a loop from 0 to `size`, which is cut to `most`.
unfoldable pub rounds_of : ℕ → ℤ → ℕ
rounds_of most (pos n) = if ltb most n then most else n
rounds_of most (negsuc n) = 0

-- Whether the stub asks who calls before it handles a code.
unfoldable pub is_known : GeoConvertInterfaceCode → Bool
is_known other_code = false
is_known code = true

module _ {D : Type 0} where
  unfoldable pub enable_reverse_geocoding_mock : GeoConvertService D → GeoConvertService D × Bool
  enable_reverse_geocoding_mock s = (record s { mock_enabled = true }, true)

  unfoldable pub disable_reverse_geocoding_mock : GeoConvertService D → GeoConvertService D × Bool
  disable_reverse_geocoding_mock s = (record s { mock_enabled = false }, true)

  unfoldable pub set_reverse_geocoding_mock_info :
      List (GeocodingMockInfo D) → GeoConvertService D → GeoConvertService D × LocationErrCode
  set_reverse_geocoding_mock_info infos s = (record s { mock_info = infos }, errcode_success)

  unfoldable pub check_if_geo_convert_connecting : GeoConvertService D → Bool
  check_if_geo_convert_connecting s = s.mock_enabled

  -- Whether the service is asked to be unloaded.
  unfoldable pub unload_geo_convert_system_ability : GeoConvertService D → Bool
  unload_geo_convert_system_ability s = not (check_if_geo_convert_connecting s)

  -- The addresses of the mocks that stand at a latitude and a longitude, in their order.
  unfoldable pub matching :
      (D → D → Bool) → D → D → List (GeocodingMockInfo D) → List (GeoAddress D)
  matching equal latitude longitude [] = []
  matching equal latitude longitude (info ∷ rest) =
      let found = matching equal latitude longitude rest in
      if not (equal latitude info.location.latitude)
        || not (equal longitude info.location.longitude)
      then found
      else info.geo_address ∷ found

module _ {D : Type 0} (o : ParcelOps D) where
  open o use {P, write, read_int32, read_double, read_string16}

  unfoldable pub write_code : LocationErrCode → P → P
  write_code code reply = write (int32 (pos (err_code code))) reply

  unfoldable pub is_geo_convert_available : GeoConvertService D → P → P × LocationErrCode
  is_geo_convert_available s reply =
      if not s.mock_enabled
      then (write_code errcode_not_supported reply, errcode_not_supported)
      else (write (bool true) (write_code errcode_success reply), errcode_success)

  unfoldable pub write_addresses : List (GeoAddress D) → P → P
  write_addresses [] reply = reply
  write_addresses (a ∷ rest) reply = write_addresses rest (address_marshalling o a reply)

  unfoldable pub report_address_mock : GeoEnv D P → GeoConvertService D → P → P → P
  report_address_mock env s message reply =
      let (latitude, p₁) = read_double message in
      let (longitude, p₂) = read_double p₁ in
      let (max_items, p₃) = read_int32 p₂ in
      let (locale_size, p₄) = read_int32 p₃ in
      let (locale, p₅) = read_string16 p₄ in
      let array = matching env.double_equal latitude longitude s.mock_info in
      let reply = write_code errcode_success reply in
      if ltb 0 (length array)
      then write_addresses array (write (int32 (pos (length array))) reply)
      else write (int32 (pos 0)) reply

  unfoldable pub get_address_by_coordinate :
      GeoEnv D P → GeoConvertService D → P → P → P × LocationErrCode
  get_address_by_coordinate env s message reply =
      if not s.mock_enabled
      then (write_code errcode_not_supported reply, errcode_not_supported)
      else (report_address_mock env s message reply, errcode_success)

  unfoldable pub get_address_by_location_name : P → P × LocationErrCode
  get_address_by_location_name reply =
      (write_code errcode_not_supported reply, errcode_not_supported)

  unfoldable pub read_mock_infos : ℕ → D → P → List (GeocodingMockInfo D)
  read_mock_infos zero zero_double message = []
  read_mock_infos (suc rounds) zero_double message =
      let (info, rest) = mock_info_read_from_parcel o zero_double message in
      info ∷ read_mock_infos rounds zero_double rest

  unfoldable pub parse_geocoding_mock_infos : D → P → List (GeocodingMockInfo D)
  parse_geocoding_mock_infos zero_double message =
      let (array_size, p₁) = read_int32 message in
      read_mock_infos (rounds_of input_array_len_max array_size) zero_double p₁

  unfoldable pub check_calling_permission : Process → Process → P → Bool × P
  check_calling_permission hub calling reply =
      if not (calling.uid == hub.uid) || not (calling.pid == hub.pid)
      then (false, write_code errcode_permission_denied reply)
      else (true, reply)

  -- The service and the reply after a call with a code that the stub knows.
  unfoldable pub handle_code :
      GeoEnv D P
      → GeoConvertInterfaceCode
      → P
      → GeoConvertService D
      → P
      → (GeoConvertService D × P) × ℤ
  handle_code env is_available message s reply =
      ((s, (is_geo_convert_available s reply).0), pos (err_code errcode_success))
  handle_code env get_from_coordinate message s reply =
      ((s, (get_address_by_coordinate env s message reply).0), pos (err_code errcode_success))
  handle_code env get_from_location_name_by_boundary message s reply =
      ((s, (get_address_by_location_name reply).0), pos (err_code errcode_success))
  handle_code env enable_reverse_geocode_mock message s reply =
      let (s', ok) = enable_reverse_geocoding_mock s in
      (
        (s', write_code (if ok then errcode_success else errcode_reverse_geocoding_fail) reply),
        pos (err_code errcode_success),
      )
  handle_code env disable_reverse_geocode_mock message s reply =
      let (s', ok) = disable_reverse_geocoding_mock s in
      (
        (s', write_code (if ok then errcode_success else errcode_reverse_geocoding_fail) reply),
        pos (err_code errcode_success),
      )
  handle_code env set_reverse_geocode_mockinfo message s reply =
      let (s', code) =
        set_reverse_geocoding_mock_info (parse_geocoding_mock_infos env.zero_double message) s in
      ((s', write_code code reply), pos (err_code errcode_success))
  handle_code env other_code message s reply =
      let (reply', result) = env.other message reply in ((s, reply'), result)

  pub record Handled : Type 0 where
    pub service : GeoConvertService D
    pub reply : P
    pub result : ℤ
    pub unloaded : Bool

  -- `token` is whether the message begins with the descriptor of the interface.
  unfoldable pub on_remote_request :
      GeoEnv D P → Process → Bool → GeoConvertInterfaceCode → P → GeoConvertService D → P → Handled
  on_remote_request env calling token code message s reply =
      let (allowed, refused) = check_calling_permission env.hub calling reply in
      let ((s', reply'), result) = handle_code env code message s reply in
      if not token
      then record {
        service = s;
        reply = write_code errcode_service_unavailable reply;
        result = pos (err_code errcode_service_unavailable);
        unloaded = false;
      }
      else if is_known code && not allowed
      then record {
        service = s;
        reply = refused;
        result = pos (err_code errcode_permission_denied);
        unloaded = false;
      }
      else record {
        service = s';
        reply = reply';
        result = result;
        unloaded = unload_geo_convert_system_ability s';
      }
