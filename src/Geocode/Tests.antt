-- ===== src/Geocode/Tests.antt =====
-- The witnesses of the properties of the geocoding service.
use gitee_oh_base_location.Base.{
  ℕ, List, String, [], arith, false, nat_beq, pos, refl, true, ◌&&◌, ◌∷◌, ◌≡◌, ◌⊎◌,
}
use gitee_oh_base_location.Parcel.{ParcelOps, Cell}
use gitee_oh_base_location.Parcel.Queue.{queue}
use gitee_oh_base_location.Geocode.{
  GeoAddress, GeocodingMockInfo, new_geo_address, address_marshalling, address_unmarshalling,
}
use gitee_oh_base_location.Geocode.Descriptions.{readable_nil, readable_cons}
use gitee_oh_base_location.Geocode.RoundTrip.{IsReadableAddress, as_read, address_round_trip}
use gitee_oh_base_location.Geocode.Service.{
  Process, GeoEnv, new_geo_service, on_remote_request, matching, enable_reverse_geocode_mock,
}
use gitee_oh_base_location.Geocode.Forward.{
  connected, ability_get_address_by_coordinate, ability_enable_reverse_geocoding_mock,
  ability_set_reverse_geocoding_mock_info, reply_addresses,
}
use gitee_oh_base_location.Geocode.Lookup.{
  AreReadable, addresses_of, question_cells, lookup-mock_info,
}
use gitee_oh_base_location.Geocode.Access.{on_remote_request-keeps}

abbrev o : ParcelOps ℕ
o = queue 0

-- An address in a town, with two descriptions and a latitude only. The longitude that it does not
-- have is set all the same.
abbrev town : String → GeoAddress ℕ
unfolding new_geo_address
town name = record (new_geo_address 0) {
  locality = name;
  descriptions = (pos 0, "Main street 1") ∷ (pos 3, "second floor") ∷ [];
  descriptions_size = pos 4;
  has_latitude = true;
  latitude = 48;
  longitude = 11;
}

abbrev mock_at : ℕ → ℕ → String → GeocodingMockInfo ℕ
mock_at latitude longitude name = record {
  location = record {
    locale = "en";
    latitude = latitude;
    longitude = longitude;
    max_items = pos 1;
  };
  geo_address = town name;
}

abbrev hub : Process
hub = record { uid = pos 1021; pid = pos 500 }

abbrev app : Process
app = record { uid = pos 20010; pid = pos 900 }

abbrev env : GeoEnv ℕ (List (Cell ℕ))
env = record {
  zero_double = 0;
  double_equal = nat_beq;
  hub = hub;
  other = λ message reply. (reply, pos 0);
}

town-IsReadable : (name : String) → IsReadableAddress (town name)
unfolding town
town-IsReadable name = (
  omega arith,
  readable_cons 0 _ (omega arith) (omega arith)
      (readable_cons 3 _ (omega arith) (omega arith) readable_nil),
)

address_round_trip_example :
    let q = address_marshalling o (town "Munich") [] in
    ((address_unmarshalling o 0 q).0 ≡ as_read 0 (town "Munich"))
    × (o.contents (address_unmarshalling o 0 q).1 ≡ [])
address_round_trip_example =
    address_round_trip o 0 (town "Munich") [] (town-IsReadable "Munich") refl

abbrev mocks : List (GeocodingMockInfo ℕ)
mocks = mock_at 48 11 "Munich" ∷ mock_at 52 13 "Berlin" ∷ mock_at 48 11 "Schwabing" ∷ []

mocks-AreReadable : AreReadable (addresses_of mocks)
mocks-AreReadable =
    (town-IsReadable "Munich", (town-IsReadable "Berlin", (town-IsReadable "Schwabing", tt)))

abbrev question : List (Cell ℕ)
question = question_cells 48 11 (pos 1) (pos 1) "en" "" "" ""

-- Two of the three mocks stand where the client asks, and both come back, though it asks for one.
lookup-mock_info_example :
    let enabled =
      (ability_enable_reverse_geocoding_mock o env hub connected [] new_geo_service).0 in
    let set = (ability_set_reverse_geocoding_mock_info o env hub connected [] mocks enabled).0 in
    reply_addresses o 0 (ability_get_address_by_coordinate o env hub connected [] question set []).1
    ≡ as_read 0 (town "Munich") ∷ as_read 0 (town "Schwabing") ∷ []
unfolding matching
lookup-mock_info_example =
    lookup-mock_info o env [] question [] new_geo_service mocks 48 11 (pos 1) (pos 1) "en" "" "" ""
      refl refl refl mocks-AreReadable

on_remote_request-keeps_example :
    let handled =
      on_remote_request o env app true enable_reverse_geocode_mock [] new_geo_service [] in
    ((handled.service ≡ new_geo_service)
      ⊎ ((true ≡ true) × (app.uid ≡ hub.uid) × (app.pid ≡ hub.pid)))
    × ((handled.unloaded && handled.service.mock_enabled) ≡ false)
on_remote_request-keeps_example =
    on_remote_request-keeps o env app true enable_reverse_geocode_mock [] [] new_geo_service
