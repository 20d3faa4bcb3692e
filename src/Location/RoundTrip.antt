-- ===== src/Location/RoundTrip.antt =====
-- Writing a location or a configuration into a parcel and reading it back.
use gitee_oh_base_location.Base.{List, [], append_assoc, refl, ◌++◌, ◌∙◌, ◌∷◌, ◌≡◌}
use gitee_oh_base_location.Parcel.{ParcelOps, Cell, int32, int64, bool, double, float, string16}
use gitee_oh_base_location.Location.{
  Location, RequestConfig, marshalling, read_from_parcel, config_marshalling,
  config_read_from_parcel,
}

module _ {D : Type 0} where
  abbrev location_cells : Location D → List (Cell D) → List (Cell D)
  location_cells l cs =
      double l.latitude
      ∷ double l.longitude
      ∷ double l.altitude
      ∷ double l.accuracy
      ∷ double l.speed
      ∷ double l.direction
      ∷ int64 l.time_stamp
      ∷ int64 l.time_since_boot
      ∷ string16 l.additions
      ∷ int64 l.addition_size
      ∷ bool l.is_from_mock
      ∷ int32 l.source_type
      ∷ int32 l.floor_no
      ∷ double l.floor_accuracy
      ∷ cs

  abbrev config_cells : RequestConfig D → List (Cell D) → List (Cell D)
  config_cells c cs =
      int32 c.scenario
      ∷ int32 c.priority
      ∷ int32 c.time_interval
      ∷ double c.distance_interval
      ∷ float c.max_accuracy
      ∷ int32 c.fix_number
      ∷ cs

module _ {D : Type 0} (o : ParcelOps D) where
  open o use {
    P, contents, write, contents-write, front_int32, front_int64, front_bool, front_double,
    front_float, front_string16,
  }

  contents-marshalling :
      (l : Location D) (p : P) → contents (marshalling o l p) ≡ contents p ++ location_cells l []
  unfolding marshalling
  contents-marshalling l p = simp (contents-write, append_assoc)

  contents-config_marshalling :
      (c : RequestConfig D) (p : P)
      → contents (config_marshalling o c p) ≡ contents p ++ config_cells c []
  unfolding config_marshalling
  contents-config_marshalling c p = simp (contents-write, append_assoc)

  read_from_parcel-cells :
      (l : Location D) (p : P) (cs : List (Cell D))
      → contents p ≡ location_cells l cs
      → ((read_from_parcel o p).0 ≡ l) × (contents (read_from_parcel o p).1 ≡ cs)
  unfolding read_from_parcel
  read_from_parcel-cells l p cs h =
      let (e₁, h₁) = front_double l.latitude _ p h in
      let (e₂, h₂) = front_double l.longitude _ _ h₁ in
      let (e₃, h₃) = front_double l.altitude _ _ h₂ in
      let (e₄, h₄) = front_double l.accuracy _ _ h₃ in
      let (e₅, h₅) = front_double l.speed _ _ h₄ in
      let (e₆, h₆) = front_double l.direction _ _ h₅ in
      let (e₇, h₇) = front_int64 l.time_stamp _ _ h₆ in
      let (e₈, h₈) = front_int64 l.time_since_boot _ _ h₇ in
      let (e₉, h₉) = front_string16 l.additions _ _ h₈ in
      let (f₁, k₁) = front_int64 l.addition_size _ _ h₉ in
      let (f₂, k₂) = front_bool l.is_from_mock _ _ k₁ in
      let (f₃, k₃) = front_int32 l.source_type _ _ k₂ in
      let (f₄, k₄) = front_int32 l.floor_no _ _ k₃ in
      let (f₅, k₅) = front_double l.floor_accuracy _ _ k₄ in
      (rw (e₁, e₂, e₃, e₄, e₅, e₆, e₇, e₈, e₉, f₁, f₂, f₃, f₄, f₅) refl, k₅)

  config_read-cells :
      (c d : RequestConfig D) (p : P) (cs : List (Cell D))
      → contents p ≡ config_cells c cs
      → ((config_read_from_parcel o d p).0 ≡ record c { time_out = d.time_out })
        × (contents (config_read_from_parcel o d p).1 ≡ cs)
  unfolding config_read_from_parcel
  config_read-cells c d p cs h =
      let (e₁, h₁) = front_int32 c.scenario _ p h in
      let (e₂, h₂) = front_int32 c.priority _ _ h₁ in
      let (e₃, h₃) = front_int32 c.time_interval _ _ h₂ in
      let (e₄, h₄) = front_double c.distance_interval _ _ h₃ in
      let (e₅, h₅) = front_float c.max_accuracy _ _ h₄ in
      let (e₆, h₆) = front_int32 c.fix_number _ _ h₅ in (rw (e₁, e₂, e₃, e₄, e₅, e₆) refl, h₆)

  -- A location that is written into an empty parcel is read back with all its fields, and nothing is
  -- left in the parcel.
  pub location_round_trip :
      (l : Location D) (p : P)
      → contents p ≡ []
      → let q = marshalling o l p in
        ((read_from_parcel o q).0 ≡ l) × (contents (read_from_parcel o q).1 ≡ [])
  location_round_trip l p empty =
      read_from_parcel-cells l _ [] (contents-marshalling l p ∙ rw empty)

  -- A configuration that is written into an empty parcel and read into another one gives it all
  -- fields but the timeout, which stays as it was, and nothing is left in the parcel.
  pub config_round_trip :
      (c d : RequestConfig D) (p : P)
      → contents p ≡ []
      → let q = config_marshalling o c p in
        ((config_read_from_parcel o d q).0 ≡ record c { time_out = d.time_out })
        × (contents (config_read_from_parcel o d q).1 ≡ [])
  config_round_trip c d p empty =
      config_read-cells c d _ [] (contents-config_marshalling c p ∙ rw empty)
