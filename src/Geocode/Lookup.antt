-- ===== src/Geocode/Lookup.antt =====
-- What a client gets from the mock of the geocoding service, on the way through the locator.
use gitee_oh_base_location.Base.{
  ℕ, List, [], append-nil, append_assoc, arith, length, map, pos, refl, suc, sym, take, zero, ◌++◌,
  ◌∷◌, ◌≡◌, ◌≤◌, String, take_all, take_beyond, true, ℤ, length-map, ◌∙◌, ==_refl, if◌then◌else◌,
  int_eq, ltb, nat_eq, string_eq, Bool, ap, false,
}
use gitee_oh_base_location.ErrCode.{err_code}
use gitee_oh_base_location.Parcel.{ParcelOps, Cell, int32, double, string16}
use gitee_oh_base_location.Geocode.{GeoAddress, GeocodingMockInfo}
use gitee_oh_base_location.Geocode.RoundTrip.{
  IsReadableAddress, as_read, info_as_read, address_cells, mock_info_cells, address_cells-append,
  contents-address_marshalling, contents-mock_info_marshalling, address_unmarshalling-cells,
  mock_info_read-cells,
}
use gitee_oh_base_location.Geocode.Service.{
  GeoConvertService, Process, GeoEnv, rounds_of, write_code, write_addresses, matching,
  report_address_mock, get_address_by_coordinate, read_mock_infos, parse_geocoding_mock_infos,
  check_calling_permission, handle_code, on_remote_request, is_known, input_array_len_max,
  set_reverse_geocoding_mock_info, enable_reverse_geocoding_mock,
}
use gitee_oh_base_location.Geocode.Forward.{
  connected, coordinate_message, ability_get_address_by_coordinate, write_mock_infos,
  ability_set_reverse_geocoding_mock_info, read_addresses, reply_addresses, send_geo_request,
  max_result, ability_enable_reverse_geocoding_mock,
}

rounds_of-length : (most n : ℕ) → (rounds_of most (pos n) ≤ n) × (rounds_of most (pos n) ≤ most)
unfolding rounds_of
rounds_of-length most n = ground arith

ltb-suc : (n : ℕ) → ltb 0 (suc n) ≡ true
ltb-suc n = ground arith

if_twice {ℓ} :
    {A : Type ℓ} (b : Bool) (x y : A)
    → (if b then (if b then x else y) else y) ≡ (if b then x else y)
if_twice true x y = refl
if_twice false x y = refl

take-map {ℓ} :
    {A B : Type ℓ} (f : A → B) (n : ℕ) (xs : List A) → take n (map f xs) ≡ map f (take n xs)
take-map f zero xs = refl
take-map f (suc n) [] = refl
take-map f (suc n) (x ∷ xs) = ap (◌∷◌ (f x)) (take-map f n xs)

take-rounds_of {ℓ} :
    {A : Type ℓ} (most : ℕ) (xs : List A)
    → take (rounds_of most (pos (length xs))) xs ≡ take most xs
unfolding rounds_of
take-rounds_of most xs = ground (arith, take_all xs, take_beyond most xs)

module _ {D : Type 0} where
  -- Every address of a list can be read back.
  abbrev pub AreReadable : List (GeoAddress D) → Type 0
  AreReadable [] = Unit
  AreReadable (a ∷ rest) = IsReadableAddress a × AreReadable rest

  abbrev pub addresses_of : List (GeocodingMockInfo D) → List (GeoAddress D)
  addresses_of = map (λ i. i.geo_address)

  abbrev all_cells : List (GeoAddress D) → List (Cell D)
  all_cells [] = []
  all_cells (a ∷ rest) = address_cells a (all_cells rest)

  abbrev info_cells : List (GeocodingMockInfo D) → List (Cell D)
  info_cells [] = []
  info_cells (i ∷ rest) = mock_info_cells i (info_cells rest)

  -- The message that a client sends.
  abbrev pub question_cells : D → D → ℤ → ℤ → String → String → String → String → List (Cell D)
  question_cells latitude longitude max_items locale_size language country variant last =
      double latitude
      ∷ double longitude
      ∷ int32 max_items
      ∷ int32 locale_size
      ∷ string16 language
      ∷ string16 country
      ∷ string16 variant
      ∷ string16 last
      ∷ []

module _ {D : Type 0} (o : ParcelOps D) where
  open o use {P, contents, write, contents-write, front_int32, front_double, front_string16}

  contents-write_addresses :
      (array : List (GeoAddress D)) (p : P)
      → contents (write_addresses o array p) ≡ contents p ++ all_cells array
  unfolding write_addresses
  contents-write_addresses [] p = sym (append-nil _)
  contents-write_addresses (a ∷ rest) p = rw (
    contents-write_addresses rest,
    contents-address_marshalling o a,
    append_assoc,
    address_cells-append a,
  )

  contents-write_mock_infos :
      (infos : List (GeocodingMockInfo D)) (p : P)
      → contents (write_mock_infos o infos p) ≡ contents p ++ info_cells infos
  unfolding write_mock_infos
  contents-write_mock_infos [] p = sym (append-nil _)
  contents-write_mock_infos (i ∷ rest) p = rw (
    contents-write_mock_infos rest,
    contents-mock_info_marshalling o i,
    append_assoc,
    address_cells-append i.geo_address,
  )

  read_addresses-cells :
      (n : ℕ) (zero_double : D) (array : List (GeoAddress D)) (p : P)
      → n ≤ length array
      → AreReadable array
      → contents p ≡ all_cells array
      → read_addresses o n zero_double p ≡ take n (map (as_read zero_double) array)
  unfolding read_addresses
  read_addresses-cells zero z array p le r h = refl
  read_addresses-cells (suc n) z [] p le r h = absurd (omega arith)
  read_addresses-cells (suc n) z (a ∷ rest) p le (r, rs) h =
      let (e, h') = address_unmarshalling-cells o z a p _ r h in
      rw (e, read_addresses-cells n z rest _ (omega arith) rs h')

  read_mock_infos-cells :
      (n : ℕ) (zero_double : D) (infos : List (GeocodingMockInfo D)) (p : P)
      → n ≤ length infos
      → AreReadable (addresses_of infos)
      → contents p ≡ info_cells infos
      → read_mock_infos o n zero_double p ≡ take n (map (info_as_read zero_double) infos)
  unfolding read_mock_infos
  read_mock_infos-cells zero z infos p le r h = refl
  read_mock_infos-cells (suc n) z [] p le r h = absurd (omega arith)
  read_mock_infos-cells (suc n) z (i ∷ rest) p le (r, rs) h =
      let (e, h') = mock_info_read-cells o z i p _ r h in
      rw (e, read_mock_infos-cells n z rest _ (omega arith) rs h')

  check_calling_permission-same :
      (process : Process) (reply : P)
      → check_calling_permission o process process reply ≡ (true, reply)
  unfolding check_calling_permission
  check_calling_permission-same process reply = rw (==_refl process.uid, ==_refl process.pid) refl

  contents-infos_message :
      (fresh : P) (infos : List (GeocodingMockInfo D))
      → contents fresh ≡ []
      → contents (write_mock_infos o infos (write (int32 (pos (length infos))) fresh))
        ≡ int32 (pos (length infos)) ∷ info_cells infos
  contents-infos_message fresh infos empty =
      rw (contents-write_mock_infos infos, contents-write, empty) refl

  parse_lem :
      (zero_double : D) (fresh : P) (infos : List (GeocodingMockInfo D))
      → contents fresh ≡ []
      → AreReadable (addresses_of infos)
      → parse_geocoding_mock_infos o zero_double
          (write_mock_infos o infos (write (int32 (pos (length infos))) fresh))
        ≡ take input_array_len_max (map (info_as_read zero_double) infos)
  unfolding parse_geocoding_mock_infos
  parse_lem z fresh infos empty r =
      let (e, h) =
        front_int32 (pos (length infos)) (info_cells infos) _
          (contents-infos_message fresh infos empty) in
      let (le, most) = rounds_of-length input_array_len_max (length infos) in
      rw e (
        read_mock_infos-cells _ z infos _ le r h
        ∙ rw (← length-map (info_as_read z) infos)
            (take-rounds_of input_array_len_max (map (info_as_read z) infos)))

  set_mock_info_lem :
      (env : GeoEnv D P) (fresh : P) (infos : List (GeocodingMockInfo D)) (s : GeoConvertService D)
      → contents fresh ≡ []
      → AreReadable (addresses_of infos)
      → (ability_set_reverse_geocoding_mock_info o env env.hub connected fresh infos s).0
        ≡ record s {
          mock_info = take input_array_len_max (map (info_as_read env.zero_double) infos);
        }
  unfolding ability_set_reverse_geocoding_mock_info send_geo_request on_remote_request handle_code
      is_known set_reverse_geocoding_mock_info
  set_mock_info_lem env fresh infos s empty r =
      rw (check_calling_permission-same env.hub, parse_lem env.zero_double fresh infos empty r) refl

  contents-coordinate_message :
      (fresh message : P) (lat lon : D) (m z : ℤ) (l c v e : String)
      → contents fresh ≡ []
      → contents message ≡ question_cells lat lon m z l c v e
      → contents (coordinate_message o fresh message) ≡ question_cells lat lon m z l c v e
  unfolding coordinate_message
  contents-coordinate_message fresh message lat lon m z l c v e empty h =
      let (e₁, h₁) = front_double lat _ message h in
      let (e₂, h₂) = front_double lon _ _ h₁ in
      let (e₃, h₃) = front_int32 m _ _ h₂ in
      let (e₄, h₄) = front_int32 z _ _ h₃ in
      let (e₅, h₅) = front_string16 l _ _ h₄ in
      let (e₆, h₆) = front_string16 c _ _ h₅ in
      let (e₇, h₇) = front_string16 v _ _ h₆ in
      let (e₈, h₈) = front_string16 e _ _ h₇ in
      simp (contents-write, append_assoc, empty, e₁, e₂, e₃, e₄, e₅, e₆, e₇, e₈)

  contents-array :
      (array : List (GeoAddress D)) (reply : P)
      → contents (
          if ltb 0 (length array)
          then write_addresses o array (write (int32 (pos (length array))) reply)
          else write (int32 (pos 0)) reply)
        ≡ contents reply ++ int32 (pos (length array)) ∷ all_cells array
  contents-array [] reply = contents-write _ _
  contents-array (a ∷ rest) reply =
      let written = write (int32 (pos (length (a ∷ rest)))) reply in
      rw
        (
          ltb-suc (length rest),
          contents-write_addresses (a ∷ rest) written,
          contents-write,
          append_assoc,
        )
        refl

  contents-report_address_mock :
      (env : GeoEnv D P) (s : GeoConvertService D) (message reply : P) (lat lon : D) (m z : ℤ)
      (l : String) (cs : List (Cell D))
      → contents message ≡ double lat ∷ double lon ∷ int32 m ∷ int32 z ∷ string16 l ∷ cs
      → let array = matching env.double_equal lat lon s.mock_info in
        contents (report_address_mock o env s message reply)
        ≡ contents reply ++ int32 (pos 0) ∷ int32 (pos (length array)) ∷ all_cells array
  unfolding report_address_mock write_code err_code
  contents-report_address_mock env s message reply lat lon m z l cs h =
      let (e₁, h₁) = front_double lat _ message h in
      let (e₂, h₂) = front_double lon _ _ h₁ in
      rw (e₁, e₂)
        (contents-array (matching env.double_equal lat lon s.mock_info) _
          ∙ rw (contents-write, append_assoc))

  reply_addresses-cells :
      (zero_double : D) (array : List (GeoAddress D)) (reply : P)
      → AreReadable array
      → contents reply ≡ int32 (pos 0) ∷ int32 (pos (length array)) ∷ all_cells array
      → reply_addresses o zero_double reply ≡ take max_result (map (as_read zero_double) array)
  unfolding reply_addresses err_code
  reply_addresses-cells z array reply r h =
      let (e₁, h₁) = front_int32 (pos 0) _ reply h in
      let (e₂, h₂) = front_int32 (pos (length array)) _ _ h₁ in
      let (le, most) = rounds_of-length max_result (length array) in
      rw (e₁, e₂)
        (read_addresses-cells _ z array _ le r h₂
          ∙ rw (← length-map (as_read z) array) (take-rounds_of max_result (map (as_read z) array)))

  enable_mock_lem :
      (env : GeoEnv D P) (fresh : P) (s : GeoConvertService D)
      → (ability_enable_reverse_geocoding_mock o env env.hub connected fresh s).0
        ≡ record s { mock_enabled = true }
  unfolding ability_enable_reverse_geocoding_mock send_geo_request on_remote_request handle_code
      is_known enable_reverse_geocoding_mock
  enable_mock_lem env fresh s = rw (check_calling_permission-same env.hub) refl

  get_address_lem :
      (env : GeoEnv D P) (fresh message reply : P) (s : GeoConvertService D) (lat lon : D) (m z : ℤ)
      (l c v e : String)
      → contents fresh ≡ []
      → contents reply ≡ []
      → contents message ≡ question_cells lat lon m z l c v e
      → s.mock_enabled ≡ true
      → let array = matching env.double_equal lat lon s.mock_info in
        AreReadable array
        → reply_addresses o env.zero_double
            (ability_get_address_by_coordinate o env env.hub connected fresh message s reply).1
          ≡ take max_result (map (as_read env.zero_double) array)
  unfolding ability_get_address_by_coordinate send_geo_request on_remote_request handle_code
      is_known get_address_by_coordinate report_address_mock
  get_address_lem env fresh message reply s lat lon m z l c v e h₀ h₁ h₂ on r =
      rw (check_calling_permission-same env.hub, on)
        (reply_addresses-cells env.zero_double _ _ r (
          contents-report_address_mock env s _ reply lat lon m z l _
            (contents-coordinate_message fresh message lat lon m z l c v e h₀ h₂)
          ∙ rw h₁))

module _ {D : Type 0} where
  as_read-idempotent : (z : D) (a : GeoAddress D) → as_read z (as_read z a) ≡ as_read z a
  as_read-idempotent z a =
      rw (if_twice a.has_latitude a.latitude z, if_twice a.has_longitude a.longitude z) refl

  -- What is found among the mocks that were read back.
  matching-info_as_read :
      (equal : D → D → Bool) (lat lon z : D) (infos : List (GeocodingMockInfo D))
      → matching equal lat lon (map (info_as_read z) infos)
        ≡ map (as_read z) (matching equal lat lon infos)
  unfolding matching
  matching-info_as_read equal lat lon z [] = refl
  matching-info_as_read equal lat lon z (i ∷ rest) =
      ground (arith, matching-info_as_read equal lat lon z rest)

  map-as_read :
      (z : D) (xs : List (GeoAddress D)) → map (as_read z) (map (as_read z) xs) ≡ map (as_read z) xs
  map-as_read z [] = refl
  map-as_read z (a ∷ rest) = rw (as_read-idempotent z a, map-as_read z rest) refl

  readable-map :
      (z : D) (xs : List (GeoAddress D)) → AreReadable xs → AreReadable (map (as_read z) xs)
  readable-map z [] r = r
  readable-map z (a ∷ rest) (r, rs) = (r, readable-map z rest rs)

  readable-matching :
      (equal : D → D → Bool) (lat lon : D) (infos : List (GeocodingMockInfo D))
      → AreReadable (addresses_of infos)
      → AreReadable (matching equal lat lon infos)
  unfolding matching
  readable-matching equal lat lon [] r = r
  readable-matching equal lat lon (i ∷ rest) (r, rs) =
      let ih = readable-matching equal lat lon rest rs in ground (arith, ih, r)

  readable-take :
      (n : ℕ) (infos : List (GeocodingMockInfo D))
      → AreReadable (addresses_of infos)
      → AreReadable (addresses_of (take n infos))
  readable-take zero infos r = tt
  readable-take (suc n) [] r = r
  readable-take (suc n) (i ∷ rest) (r, rs) = (r, readable-take n rest rs)

module _ {D : Type 0} (o : ParcelOps D) where
  open o use {P, contents}

  -- The mock is enabled through the locator, which runs in the process of the hub, mocks are set
  -- through it, and then a client asks for the addresses at a latitude and a longitude, with an
  -- empty reply. Where all addresses of the mocks can be written and read back, the client gets
  -- those of the first 100 mocks that stand at these coordinates, in their order and at most ten,
  -- as they are read back: whatever the service held before, and whatever locale and number of
  -- items the message asks for.
  pub lookup-mock_info :
      (env : GeoEnv D P) (fresh message reply : P) (s : GeoConvertService D)
      (infos : List (GeocodingMockInfo D)) (lat lon : D) (m z : ℤ) (l c v e : String)
      → contents fresh ≡ []
      → contents reply ≡ []
      → contents message ≡ question_cells lat lon m z l c v e
      → AreReadable (addresses_of infos)
      → let enabled = (ability_enable_reverse_geocoding_mock o env env.hub connected fresh s).0 in
        let set =
          (ability_set_reverse_geocoding_mock_info o env env.hub connected fresh infos enabled).0 in
        reply_addresses o env.zero_double
          (ability_get_address_by_coordinate o env env.hub connected fresh message set reply).1
        ≡ take max_result (
            map
              (as_read env.zero_double)
              (matching env.double_equal lat lon (take input_array_len_max infos)))
  lookup-mock_info env fresh message reply s infos lat lon m z l c v e h₀ h₁ h₂ r =
      let first = take input_array_len_max infos in
      let r' = readable-take input_array_len_max infos r in
      let found = matching env.double_equal lat lon first in
      let e₁ = matching-info_as_read env.double_equal lat lon env.zero_double first in
      rw
        (
          enable_mock_lem o env fresh s,
          set_mock_info_lem o env fresh infos _ h₀ r,
          take-map (info_as_read env.zero_double) input_array_len_max infos,
        )
        (get_address_lem o env fresh message reply _ lat lon m z l c v e h₀ h₁ h₂ refl (
            rw e₁ (
              readable-map env.zero_double found
                (readable-matching env.double_equal lat lon first r')))
          ∙ rw (e₁, map-as_read env.zero_double found))
