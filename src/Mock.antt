-- ===== src/Mock.antt =====
-- The mocked locations of gnss_ability.cpp and network_ability.cpp, which report them alike, one by
-- one, by an event that their handler sends to itself. The event runner and the locator are the
-- system's: `events` holds the delays in milliseconds of the report events that were sent, `reports`
-- the locations that went to the locator, which can be reached, with the ability that is named to it.
pub mod Run
mod Tests
use gitee_oh_base_location.Base.{
  ℕ, Bool, List, Option, String, [], if◌then◌else◌, length, ltb, ltb_ℤ, negsuc, none, not, pos,
  pos_part, some, suc, zero, ℤ, ◌%◌, ◌&&◌, ◌*◌, ◌++◌, ◌+◌, ◌-◌, ◌^◌, ◌||◌, ◌∷◌,
}
use gitee_oh_base_location.ErrCode.{LocationErrCode, errcode_success, errcode_not_supported}
use gitee_oh_base_location.Common.{passive_ability}
use gitee_oh_base_location.Parcel.{ParcelOps}
use gitee_oh_base_location.Location.{Location, read_from_parcel}
use gitee_oh_base_location.SubAbility.{
  SubAbility, new_sub_ability, enable_location_mock, disable_location_mock, set_mocked_locations,
  clear_location_mock,
}

pub record Mock (D : Type 0) : Type 0 where
  pub sub : SubAbility (Location D)
  pub mock_location_index : ℕ
  pub reports : List (String × Location D)
  pub events : List ℕ

-- An `int` as a `uint32_t`.
unfoldable pub to_uint32 : ℤ → ℕ
to_uint32 (pos n) = n % 2 ^ 32
to_uint32 (negsuc n) = 2 ^ 32 - 1 - n % 2 ^ 32

abbrev pub event_interval_unite : ℕ
event_interval_unite = 1000

abbrev pub input_array_len_max : ℕ
input_array_len_max = 100

module _ {D : Type 0} where
  unfoldable pub new_mock : Mock D
  new_mock = record { sub = new_sub_ability; mock_location_index = 0; reports = []; events = [] }

  -- The element at the position.
  unfoldable pub at_position : List (Location D) → ℕ → Option (Location D)
  at_position [] i = none
  at_position (x ∷ xs) zero = some x
  at_position (x ∷ xs) (suc i) = at_position xs i

  -- `passive` is whether the passive ability is compiled in.
  unfoldable pub report_mocked_location : String → Bool → Location D → Mock D → Mock D
  report_mocked_location ability passive location m =
      if m.sub.mock_enabled && not location.is_from_mock
        || not m.sub.mock_enabled && location.is_from_mock
      then m
      else record m {
        reports =
            m.reports
            ++ (ability, location) ∷ (if passive then (passive_ability, location) ∷ [] else []);
      }

  unfoldable pub process_report_location_mock : String → Bool → Mock D → Mock D
  process_report_location_mock ability passive m =
      elim (at_position m.sub.mock_loc m.mock_location_index) [
        | some location ↦
            let reported =
              report_mocked_location ability passive location
                (record m { mock_location_index = m.mock_location_index + 1 }) in
            record reported {
              events =
                  reported.events
                  ++ to_uint32 reported.sub.mock_time_interval * event_interval_unite % 2 ^ 32 ∷ [];
            }
        | none ↦ record m { sub = clear_location_mock m.sub; mock_location_index = 0 }
      ]

  unfoldable pub send_report_mock_location_event : Mock D → Mock D
  send_report_mock_location_event m = record m { events = m.events ++ 0 ∷ [] }

  unfoldable pub is_mock_enabled : Mock D → Bool
  is_mock_enabled m = m.sub.mock_enabled

  unfoldable pub is_mock_processing : Mock D → Bool
  is_mock_processing m = ltb 0 (length m.sub.mock_loc)

  unfoldable pub enable_mock : Mock D → Mock D × LocationErrCode
  enable_mock m =
      let (sub, ok) = enable_location_mock m.sub in
      (record m { sub = sub }, if not ok then errcode_not_supported else errcode_success)

  unfoldable pub disable_mock : Mock D → Mock D × LocationErrCode
  disable_mock m =
      let (sub, ok) = disable_location_mock m.sub in
      (record m { sub = sub }, if not ok then errcode_not_supported else errcode_success)

  unfoldable pub set_mocked : Mock D → ℤ → List (Location D) → Mock D × LocationErrCode
  set_mocked m time_interval location =
      let (sub, ok) = set_mocked_locations m.sub time_interval location in
      let sent = record m { sub = sub } in
      if not ok
      then (sent, errcode_not_supported)
      else (send_report_mock_location_event sent, errcode_success)

  -- Rounds of the loop that reads the locations of a message.
  unfoldable pub read_locations : (o : ParcelOps D) → ℕ → o.P → List (Location D) × o.P
  read_locations o zero p = ([], p)
  read_locations o (suc rounds) p =
      let (location, p₁) = read_from_parcel o p in
      let (rest, p₂) = read_locations o rounds p₁ in (location ∷ rest, p₂)

  -- What SET_MOCKED_LOCATIONS reads: the interval and at most 100 locations.
  unfoldable pub read_mocked : (o : ParcelOps D) → o.P → ℤ × List (Location D)
  read_mocked o p =
      let (time_interval, p₁) = o.read_int32 p in
      let (location_size, p₂) = o.read_int32 p₁ in
      let size = pos_part location_size in
      (
        if ltb_ℤ time_interval (pos 0) then pos 1 else time_interval,
        (read_locations o (if ltb input_array_len_max size then input_array_len_max else size)
            p₂).0,
      )
