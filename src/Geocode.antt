-- ===== src/Geocode.antt =====
-- frameworks/location_common/common/source/geo_address.cpp and geo_coding_mock_info.cpp: an address,
-- the request it is the answer to, and the pair of them that a mock is made of. `D` stands for
-- `double`; a parcel write is taken to succeed, and a `u16string` is the string it is made from.
pub mod Descriptions
pub mod RoundTrip
pub mod Service
pub mod Forward
pub mod Lookup
pub mod Access
mod Tests
use gitee_oh_base_location.Base.{
  ℕ, Bool, List, String, [], false, if◌then◌else◌, int_eq, length, lookup, ltb_ℤ, nat_eq, negsuc,
  none, not, pos, pos_part, some, string_eq, suc, true, zero, ℤ, ◌&&◌, ◌-ℤ◌, ◌==◌, ◌||◌, ◌∷◌,
}
use gitee_oh_base_location.Parcel.{ParcelOps, int32, bool, double, string16}

-- The descriptions are an ordered map: a list by ascending key.
pub record GeoAddress (D : Type 0) : Type 0 where
  pub latitude : D
  pub longitude : D
  pub locale_language : String
  pub locale_country : String
  pub place_name : String
  pub country_code : String
  pub country_name : String
  pub administrative_area : String
  pub sub_administrative_area : String
  pub locality : String
  pub sub_locality : String
  pub road_name : String
  pub sub_road_name : String
  pub premises : String
  pub postal_code : String
  pub phone_number : String
  pub address_url : String
  pub descriptions : List (ℤ × String)
  pub descriptions_size : ℤ
  pub has_latitude : Bool
  pub has_longitude : Bool
  pub is_from_mock : Bool

pub record ReverseGeocodeRequest (D : Type 0) : Type 0 where
  pub locale : String
  pub latitude : D
  pub longitude : D
  pub max_items : ℤ

pub record GeocodingMockInfo (D : Type 0) : Type 0 where
  pub location : ReverseGeocodeRequest D
  pub geo_address : GeoAddress D

abbrev pub maximum_interation : ℤ
maximum_interation = pos 100

-- The default address, for the number 0.0.
unfoldable pub new_geo_address : {D : Type 0} → D → GeoAddress D
new_geo_address zero_double = record {
  latitude = zero_double;
  longitude = zero_double;
  locale_language = "";
  locale_country = "";
  place_name = "";
  country_code = "";
  country_name = "";
  administrative_area = "";
  sub_administrative_area = "";
  locality = "";
  sub_locality = "";
  road_name = "";
  sub_road_name = "";
  premises = "";
  postal_code = "";
  phone_number = "";
  address_url = "";
  descriptions = [];
  descriptions_size = pos 0;
  has_latitude = false;
  has_longitude = false;
  is_from_mock = false;
}

module _ {D : Type 0} where
  unfoldable pub get_descriptions : GeoAddress D → ℤ → String
  get_descriptions a index =
      if ltb_ℤ index (pos 0)
      then ""
      else if not (ltb_ℤ (pos 0) a.descriptions_size)
      then ""
      else elim (lookup index a.descriptions) [ none ↦ "" | some line ↦ line ]

  unfoldable pub get_latitude : D → GeoAddress D → D
  get_latitude zero_double a = if a.has_latitude then a.latitude else zero_double

  unfoldable pub get_longitude : D → GeoAddress D → D
  get_longitude zero_double a = if a.has_longitude then a.longitude else zero_double

-- `insert`: a key that is there keeps its value.
unfoldable pub insert_description : ℤ → String → List (ℤ × String) → List (ℤ × String)
insert_description index line [] = (index, line) ∷ []
insert_description index line ((j, other) ∷ rest) =
    let inserted = insert_description index line rest in
    if ltb_ℤ index j
    then (index, line) ∷ (j, other) ∷ rest
    else if index == j
    then (j, other) ∷ rest
    else (j, other) ∷ inserted

-- `std::max(size, index + 1)`
unfoldable pub larger_size : ℤ → ℤ → ℤ
larger_size size index = let next = index -ℤ negsuc 0 in if ltb_ℤ size next then next else size

module _ {D : Type 0} (o : ParcelOps D) where
  open o use {P, write, read_int32, read_bool, read_double, read_string16}

  -- The rounds of the reading loop. The line behind an index out of range is not read.
  unfoldable pub read_descriptions : ℕ → List (ℤ × String) → ℤ → P → (List (ℤ × String) × ℤ) × P
  read_descriptions zero ds size p = ((ds, size), p)
  read_descriptions (suc rounds) ds size p =
      let (index, p₁) = read_int32 p in
      let (line, p₂) = read_string16 p₁ in
      let skipped = read_descriptions rounds ds size p₁ in
      let taken =
        read_descriptions rounds (insert_description index line ds) (larger_size size index) p₂ in
      if ltb_ℤ index (pos 0) || not (ltb_ℤ index maximum_interation) then skipped else taken

  -- The eleven lines from the name of the place to the name of the country.
  unfoldable pub read_names : GeoAddress D → P → GeoAddress D × P
  read_names a p =
      let (place_name, p₁) = read_string16 p in
      let (administrative_area, p₂) = read_string16 p₁ in
      let (sub_administrative_area, p₃) = read_string16 p₂ in
      let (locality, p₄) = read_string16 p₃ in
      let (sub_locality, p₅) = read_string16 p₄ in
      let (road_name, p₆) = read_string16 p₅ in
      let (sub_road_name, p₇) = read_string16 p₆ in
      let (premises, p₈) = read_string16 p₇ in
      let (postal_code, p₉) = read_string16 p₈ in
      let (country_code, q₁) = read_string16 p₉ in
      let (country_name, q₂) = read_string16 q₁ in
      (
        record a {
          place_name = place_name;
          administrative_area = administrative_area;
          sub_administrative_area = sub_administrative_area;
          locality = locality;
          sub_locality = sub_locality;
          road_name = road_name;
          sub_road_name = sub_road_name;
          premises = premises;
          postal_code = postal_code;
          country_code = country_code;
          country_name = country_name;
        },
        q₂,
      )

  -- A flag, and where it is set the coordinate behind it; else the coordinate `old` stays.
  unfoldable pub read_coordinate : D → P → (Bool × D) × P
  read_coordinate old p =
      let (flag, p₁) = read_int32 p in
      let (coordinate, p₂) = read_double p₁ in
      if not (flag == pos 0) then ((true, coordinate), p₂) else ((false, old), p₁)

  unfoldable pub read_rest : GeoAddress D → P → GeoAddress D × P
  read_rest a p =
      let ((has_latitude, latitude), p₁) = read_coordinate a.latitude p in
      let ((has_longitude, longitude), p₂) = read_coordinate a.longitude p₁ in
      let (phone_number, p₃) = read_string16 p₂ in
      let (address_url, p₄) = read_string16 p₃ in
      let (is_from_mock, p₅) = read_bool p₄ in
      (
        record a {
          has_latitude = has_latitude;
          latitude = latitude;
          has_longitude = has_longitude;
          longitude = longitude;
          phone_number = phone_number;
          address_url = address_url;
          is_from_mock = is_from_mock;
        },
        p₅,
      )

  -- The locale and the descriptions.
  unfoldable pub read_head : GeoAddress D → P → GeoAddress D × P
  read_head a p =
      let (locale_language, p₁) = read_string16 p in
      let (locale_country, p₂) = read_string16 p₁ in
      let (size, p₃) = read_int32 p₂ in
      let ((descriptions, descriptions_size), p₄) =
        (if ltb_ℤ (pos 0) size && ltb_ℤ size maximum_interation
          then read_descriptions (pos_part size) a.descriptions a.descriptions_size p₃
          else ((a.descriptions, pos 0), p₃)) in
      (
        record a {
          locale_language = locale_language;
          locale_country = locale_country;
          descriptions = descriptions;
          descriptions_size = descriptions_size;
        },
        p₄,
      )

  unfoldable pub address_read_from_parcel : GeoAddress D → P → GeoAddress D × P
  address_read_from_parcel a p =
      let (headed, p₁) = read_head a p in
      let (named, p₂) = read_names headed p₁ in read_rest named p₂

  unfoldable pub address_unmarshalling : D → P → GeoAddress D × P
  address_unmarshalling zero_double p = address_read_from_parcel (new_geo_address zero_double) p

  unfoldable pub write_descriptions : List (ℤ × String) → P → P
  write_descriptions [] p = p
  write_descriptions (entry ∷ rest) p =
      let p = write (int32 entry.0) p in
      let p = write (string16 entry.1) p in write_descriptions rest p

  unfoldable pub write_names : GeoAddress D → P → P
  write_names a p =
      let p = write (string16 a.place_name) p in
      let p = write (string16 a.administrative_area) p in
      let p = write (string16 a.sub_administrative_area) p in
      let p = write (string16 a.locality) p in
      let p = write (string16 a.sub_locality) p in
      let p = write (string16 a.road_name) p in
      let p = write (string16 a.sub_road_name) p in
      let p = write (string16 a.premises) p in
      let p = write (string16 a.postal_code) p in
      let p = write (string16 a.country_code) p in write (string16 a.country_name) p

  unfoldable pub write_coordinate : Bool → D → P → P
  write_coordinate has coordinate p =
      let p = write (int32 (if has then pos 1 else pos 0)) p in
      if has then write (double coordinate) p else p

  unfoldable pub write_rest : GeoAddress D → P → P
  write_rest a p =
      let p = write_coordinate a.has_latitude a.latitude p in
      let p = write_coordinate a.has_longitude a.longitude p in
      let p = write (string16 a.phone_number) p in
      let p = write (string16 a.address_url) p in write (bool a.is_from_mock) p

  -- The size that is written where there are no descriptions is 0, as the source spells out.
  unfoldable pub address_marshalling : GeoAddress D → P → P
  address_marshalling a p =
      let p = write (string16 a.locale_language) p in
      let p = write (string16 a.locale_country) p in
      let p = write (int32 (pos (length a.descriptions))) p in
      let p = write_descriptions a.descriptions p in write_rest a (write_names a p)

  unfoldable pub mock_info_marshalling : GeocodingMockInfo D → P → P
  mock_info_marshalling info p =
      let p = write (string16 info.location.locale) p in
      let p = write (double info.location.latitude) p in
      let p = write (double info.location.longitude) p in
      let p = write (int32 info.location.max_items) p in address_marshalling info.geo_address p

  -- Both halves are overwritten, so the object that is read into does not matter.
  unfoldable pub mock_info_read_from_parcel : D → P → GeocodingMockInfo D × P
  mock_info_read_from_parcel zero_double p =
      let (locale, p₁) = read_string16 p in
      let (latitude, p₂) = read_double p₁ in
      let (longitude, p₃) = read_double p₂ in
      let (max_items, p₄) = read_int32 p₃ in
      let (geo_address, p₅) = address_unmarshalling zero_double p₄ in
      (
        record {
          location = record {
            locale = locale;
            latitude = latitude;
            longitude = longitude;
            max_items = max_items;
          };
          geo_address = geo_address;
        },
        p₅,
      )
