-- ===== src/Geocode/RoundTrip.antt =====
-- Writing an address and a mock into a parcel and reading them back.
use gitee_oh_base_location.Base.{
  Bool, List, [], append_assoc, false, if◌then◌else◌, length, pos, refl, true, ◌++◌, ◌<◌, ◌∷◌, ◌≡◌,
  String, arith, ltb_ℤ, pos_part, ℤ, ◌&&◌, ◌∙◌,
}
use gitee_oh_base_location.Parcel.{ParcelOps, Cell, int32, bool, double, string16}
use gitee_oh_base_location.Geocode.{
  GeoAddress, GeocodingMockInfo, new_geo_address, read_names, read_coordinate, read_rest,
  address_read_from_parcel, read_head, address_unmarshalling, write_names, write_coordinate,
  write_rest, address_marshalling, mock_info_marshalling, mock_info_read_from_parcel,
  maximum_interation, read_descriptions,
}
use gitee_oh_base_location.Geocode.Descriptions.{
  IsReadable, size_after, description_cells, description_cells-append, contents-write_descriptions,
  read_descriptions-readable,
}

-- What can be read back: fewer than 100 descriptions, by ascending index below 100.
abbrev pub IsReadableAddress : {D : Type 0} → GeoAddress D → Type 0
IsReadableAddress a = (length a.descriptions < 100) × IsReadable 0 a.descriptions

-- What is read back: the size is the one after the last index, and a coordinate that the address
-- does not have is 0.0.
abbrev pub as_read : {D : Type 0} → D → GeoAddress D → GeoAddress D
as_read zero_double a = record a {
  descriptions_size = size_after (pos 0) a.descriptions;
  latitude = if a.has_latitude then a.latitude else zero_double;
  longitude = if a.has_longitude then a.longitude else zero_double;
}

abbrev pub info_as_read : {D : Type 0} → D → GeocodingMockInfo D → GeocodingMockInfo D
info_as_read zero_double i = record i { geo_address = as_read zero_double i.geo_address }

module _ {D : Type 0} where
  abbrev name_cells : GeoAddress D → List (Cell D) → List (Cell D)
  name_cells a cs =
      string16 a.place_name
      ∷ string16 a.administrative_area
      ∷ string16 a.sub_administrative_area
      ∷ string16 a.locality
      ∷ string16 a.sub_locality
      ∷ string16 a.road_name
      ∷ string16 a.sub_road_name
      ∷ string16 a.premises
      ∷ string16 a.postal_code
      ∷ string16 a.country_code
      ∷ string16 a.country_name
      ∷ cs

  abbrev coordinate_cells : Bool → D → List (Cell D) → List (Cell D)
  coordinate_cells true coordinate cs = int32 (pos 1) ∷ double coordinate ∷ cs
  coordinate_cells false coordinate cs = int32 (pos 0) ∷ cs

  coordinate_cells-append :
      (b : Bool) (d : D) (cs es : List (Cell D))
      → coordinate_cells b d cs ++ es ≡ coordinate_cells b d (cs ++ es)
  coordinate_cells-append true d cs es = refl
  coordinate_cells-append false d cs es = refl

  abbrev rest_cells : GeoAddress D → List (Cell D) → List (Cell D)
  rest_cells a cs = coordinate_cells a.has_latitude a.latitude (
      coordinate_cells a.has_longitude a.longitude
        (string16 a.phone_number ∷ string16 a.address_url ∷ bool a.is_from_mock ∷ cs))

  -- An address in a parcel, with the cells `cs` behind it.
  abbrev pub address_cells : GeoAddress D → List (Cell D) → List (Cell D)
  address_cells a cs =
      string16 a.locale_language
      ∷ string16 a.locale_country
      ∷ int32 (pos (length a.descriptions))
      ∷ description_cells a.descriptions (name_cells a (rest_cells a cs))

  abbrev pub mock_info_cells : GeocodingMockInfo D → List (Cell D) → List (Cell D)
  mock_info_cells i cs =
      string16 i.location.locale
      ∷ double i.location.latitude
      ∷ double i.location.longitude
      ∷ int32 i.location.max_items
      ∷ address_cells i.geo_address cs

  rest_cells-append :
      (a : GeoAddress D) (cs es : List (Cell D)) → rest_cells a cs ++ es ≡ rest_cells a (cs ++ es)
  rest_cells-append a cs es = rw (coordinate_cells-append, coordinate_cells-append)

  pub address_cells-append :
      (a : GeoAddress D) (cs es : List (Cell D))
      → address_cells a cs ++ es ≡ address_cells a (cs ++ es)
  address_cells-append a cs es = rw (description_cells-append, rest_cells-append a)

module _ {D : Type 0} (o : ParcelOps D) where
  open o use {P, contents, contents-write, front_int32, front_bool, front_double, front_string16}

  contents-write_names :
      (a : GeoAddress D) (p : P) → contents (write_names o a p) ≡ contents p ++ name_cells a []
  unfolding write_names
  contents-write_names a p = simp (contents-write, append_assoc)

  contents-write_coordinate :
      (b : Bool) (d : D) (p : P)
      → contents (write_coordinate o b d p) ≡ contents p ++ coordinate_cells b d []
  unfolding write_coordinate
  contents-write_coordinate true d p = simp (contents-write, append_assoc)
  contents-write_coordinate false d p = rw contents-write

  contents-write_rest :
      (a : GeoAddress D) (p : P) → contents (write_rest o a p) ≡ contents p ++ rest_cells a []
  unfolding write_rest
  contents-write_rest a p =
      simp (contents-write, contents-write_coordinate, append_assoc, coordinate_cells-append)

  pub contents-address_marshalling :
      (a : GeoAddress D) (p : P)
      → contents (address_marshalling o a p) ≡ contents p ++ address_cells a []
  unfolding address_marshalling
  contents-address_marshalling a p = simp (
    contents-write,
    contents-write_rest,
    contents-write_names,
    contents-write_descriptions o,
    append_assoc,
    description_cells-append,
  )

  pub contents-mock_info_marshalling :
      (i : GeocodingMockInfo D) (p : P)
      → contents (mock_info_marshalling o i p) ≡ contents p ++ mock_info_cells i []
  unfolding mock_info_marshalling
  contents-mock_info_marshalling i p =
      simp (contents-write, contents-address_marshalling, append_assoc)

  read_names-cells :
      (a b : GeoAddress D) (p : P) (cs : List (Cell D))
      → contents p ≡ name_cells a cs
      → ((read_names o b p).0 ≡ record b {
        place_name = a.place_name;
        administrative_area = a.administrative_area;
        sub_administrative_area = a.sub_administrative_area;
        locality = a.locality;
        sub_locality = a.sub_locality;
        road_name = a.road_name;
        sub_road_name = a.sub_road_name;
        premises = a.premises;
        postal_code = a.postal_code;
        country_code = a.country_code;
        country_name = a.country_name;
      })
        × (contents (read_names o b p).1 ≡ cs)
  unfolding read_names
  read_names-cells a b p cs h =
      let (e₁, h₁) = front_string16 a.place_name _ p h in
      let (e₂, h₂) = front_string16 a.administrative_area _ _ h₁ in
      let (e₃, h₃) = front_string16 a.sub_administrative_area _ _ h₂ in
      let (e₄, h₄) = front_string16 a.locality _ _ h₃ in
      let (e₅, h₅) = front_string16 a.sub_locality _ _ h₄ in
      let (e₆, h₆) = front_string16 a.road_name _ _ h₅ in
      let (e₇, h₇) = front_string16 a.sub_road_name _ _ h₆ in
      let (e₈, h₈) = front_string16 a.premises _ _ h₇ in
      let (e₉, h₉) = front_string16 a.postal_code _ _ h₈ in
      let (f₁, k₁) = front_string16 a.country_code _ _ h₉ in
      let (f₂, k₂) = front_string16 a.country_name _ _ k₁ in
      (rw (e₁, e₂, e₃, e₄, e₅, e₆, e₇, e₈, e₉, f₁, f₂) refl, k₂)

  read_coordinate-cells :
      (b : Bool) (d old : D) (p : P) (cs : List (Cell D))
      → contents p ≡ coordinate_cells b d cs
      → ((read_coordinate o old p).0 ≡ (b, if b then d else old))
        × (contents (read_coordinate o old p).1 ≡ cs)
  unfolding read_coordinate
  read_coordinate-cells true d old p cs h =
      let (e₁, h₁) = front_int32 (pos 1) _ p h in
      let (e₂, h₂) = front_double d _ _ h₁ in rw (e₁, e₂) (refl, h₂)
  read_coordinate-cells false d old p cs h =
      let (e₁, h₁) = front_int32 (pos 0) _ p h in rw e₁ (refl, h₁)

  read_rest-cells :
      (a b : GeoAddress D) (p : P) (cs : List (Cell D))
      → contents p ≡ rest_cells a cs
      → ((read_rest o b p).0 ≡ record b {
        has_latitude = a.has_latitude;
        latitude = if a.has_latitude then a.latitude else b.latitude;
        has_longitude = a.has_longitude;
        longitude = if a.has_longitude then a.longitude else b.longitude;
        phone_number = a.phone_number;
        address_url = a.address_url;
        is_from_mock = a.is_from_mock;
      })
        × (contents (read_rest o b p).1 ≡ cs)
  unfolding read_rest
  read_rest-cells a b p cs h =
      let (e₁, h₁) = read_coordinate-cells a.has_latitude a.latitude b.latitude p _ h in
      let (e₂, h₂) = read_coordinate-cells a.has_longitude a.longitude b.longitude _ _ h₁ in
      let (e₃, h₃) = front_string16 a.phone_number _ _ h₂ in
      let (e₄, h₄) = front_string16 a.address_url _ _ h₃ in
      let (e₅, h₅) = front_bool a.is_from_mock _ _ h₄ in (rw (e₁, e₂, e₃, e₄, e₅) refl, h₅)

  -- The branch that the size takes.
  read_sized-cells :
      (ds : List (ℤ × String)) (p : P) (cs : List (Cell D))
      → length ds < 100
      → IsReadable 0 ds
      → contents p ≡ description_cells ds cs
      → let size = pos (length ds) in
        let read =
          (if ltb_ℤ (pos 0) size && ltb_ℤ size maximum_interation
            then read_descriptions o (pos_part size) [] (pos 0) p
            else (([], pos 0), p)) in
        (read.0 ≡ (ds, size_after (pos 0) ds)) × (contents read.1 ≡ cs)
  read_sized-cells [] p cs lt r h = (refl, h)
  read_sized-cells (entry ∷ rest) p cs lt r h =
      let read = read_descriptions-readable o (entry ∷ rest) p cs r h in ground (arith, read)

  read_head-cells :
      (a b : GeoAddress D) (p : P) (cs : List (Cell D))
      → IsReadableAddress a
      → b.descriptions ≡ []
      → b.descriptions_size ≡ pos 0
      → contents p
        ≡ string16 a.locale_language
          ∷ string16 a.locale_country
          ∷ int32 (pos (length a.descriptions))
          ∷ description_cells a.descriptions cs
      → ((read_head o b p).0 ≡ record b {
        locale_language = a.locale_language;
        locale_country = a.locale_country;
        descriptions = a.descriptions;
        descriptions_size = size_after (pos 0) a.descriptions;
      })
        × (contents (read_head o b p).1 ≡ cs)
  unfolding read_head
  read_head-cells a b p cs (lt, r) none_yet none_size h =
      let (e₁, h₁) = front_string16 a.locale_language _ p h in
      let (e₂, h₂) = front_string16 a.locale_country _ _ h₁ in
      let (e₃, h₃) = front_int32 (pos (length a.descriptions)) _ _ h₂ in
      let (e₄, h₄) = read_sized-cells a.descriptions _ _ lt r h₃ in
      rw (none_yet, none_size, e₁, e₂, e₃, e₄) (refl, h₄)

  -- An address in front of a parcel is taken from it.
  pub address_unmarshalling-cells :
      (zero_double : D) (a : GeoAddress D) (p : P) (cs : List (Cell D))
      → IsReadableAddress a
      → contents p ≡ address_cells a cs
      → ((address_unmarshalling o zero_double p).0 ≡ as_read zero_double a)
        × (contents (address_unmarshalling o zero_double p).1 ≡ cs)
  unfolding address_unmarshalling address_read_from_parcel new_geo_address
  address_unmarshalling-cells zero_double a p cs r h =
      let b = new_geo_address zero_double in
      let (e₁, h₁) = read_head-cells a b p _ r refl refl h in
      let (e₂, h₂) = read_names-cells a (read_head o b p).0 _ _ h₁ in
      let (e₃, h₃) =
        read_rest-cells a (read_names o (read_head o b p).0 (read_head o b p).1).0 _ _ h₂ in
      (e₃ ∙ rw (e₂, e₁) refl, h₃)

  pub mock_info_read-cells :
      (zero_double : D) (i : GeocodingMockInfo D) (p : P) (cs : List (Cell D))
      → IsReadableAddress i.geo_address
      → contents p ≡ mock_info_cells i cs
      → ((mock_info_read_from_parcel o zero_double p).0 ≡ info_as_read zero_double i)
        × (contents (mock_info_read_from_parcel o zero_double p).1 ≡ cs)
  unfolding mock_info_read_from_parcel
  mock_info_read-cells zero_double i p cs r h =
      let (e₁, h₁) = front_string16 i.location.locale _ p h in
      let (e₂, h₂) = front_double i.location.latitude _ _ h₁ in
      let (e₃, h₃) = front_double i.location.longitude _ _ h₂ in
      let (e₄, h₄) = front_int32 i.location.max_items _ _ h₃ in
      let (e₅, h₅) = address_unmarshalling-cells zero_double i.geo_address _ cs r h₄ in
      (rw (e₁, e₂, e₃, e₄, e₅) refl, h₅)

  -- An address with fewer than 100 descriptions, by ascending index below 100, that is written into
  -- an empty parcel is read back with all its fields; but the size of the descriptions is the one
  -- that their indexes give, and a coordinate that the address does not have is 0.0. Nothing is left
  -- in the parcel.
  pub address_round_trip :
      (zero_double : D) (a : GeoAddress D) (p : P)
      → IsReadableAddress a
      → contents p ≡ []
      → let q = address_marshalling o a p in
        ((address_unmarshalling o zero_double q).0 ≡ as_read zero_double a)
        × (contents (address_unmarshalling o zero_double q).1 ≡ [])
  address_round_trip zero_double a p r empty =
      address_unmarshalling-cells zero_double a _ [] r (contents-address_marshalling a p ∙ rw empty)
