-- ===== src/Location.antt =====
-- frameworks/location_common/common/source/location.cpp and request_config.cpp: a location and the
-- configuration of a request. `D` stands for `double` and `float`; a parcel write is taken to succeed.
pub mod RoundTrip
pub mod Config
mod Tests
use gitee_oh_base_location.Base.{
  ℕ, Bool, String, false, if◌then◌else◌, int_eq, nat_eq, not, pos, string_eq, true, ℤ, ◌==◌,
}
use gitee_oh_base_location.Parcel.{ParcelOps, int32, int64, bool, double, float, string16}

pub record Location (D : Type 0) : Type 0 where
  pub latitude : D
  pub longitude : D
  pub altitude : D
  pub accuracy : D
  pub speed : D
  pub direction : D
  pub time_stamp : ℤ
  pub time_since_boot : ℤ
  pub additions : String
  pub addition_size : ℤ
  pub is_from_mock : Bool
  pub source_type : ℤ
  pub floor_no : ℤ
  pub floor_accuracy : D

pub record RequestConfig (D : Type 0) : Type 0 where
  pub scenario : ℤ
  pub priority : ℤ
  pub time_interval : ℤ
  pub distance_interval : D
  pub max_accuracy : D
  pub fix_number : ℤ
  pub time_out : ℤ

abbrev pub scene_unset : ℤ
scene_unset = pos 0x0300

abbrev pub scene_navigation : ℤ
scene_navigation = pos 0x0301

abbrev pub scene_trajectory_tracking : ℤ
scene_trajectory_tracking = pos 0x0302

abbrev pub scene_car_hailing : ℤ
scene_car_hailing = pos 0x0303

abbrev pub scene_daily_life_service : ℤ
scene_daily_life_service = pos 0x0304

abbrev pub scene_no_power : ℤ
scene_no_power = pos 0x0305

abbrev pub priority_unset : ℤ
priority_unset = pos 0x0200

abbrev pub priority_accuracy : ℤ
priority_accuracy = pos 0x0201

abbrev pub priority_low_power : ℤ
priority_low_power = pos 0x0202

abbrev pub priority_fast_first_fix : ℤ
priority_fast_first_fix = pos 0x0203

-- The default configuration, for the number 0.0.
unfoldable pub new_request_config : {D : Type 0} → D → RequestConfig D
new_request_config zero_double = record {
  scenario = scene_unset;
  priority = priority_fast_first_fix;
  time_interval = pos 1;
  distance_interval = zero_double;
  max_accuracy = zero_double;
  fix_number = pos 0;
  time_out = pos 30000;
}

module _ {D : Type 0} where
  -- The timeout is not copied.
  unfoldable pub set_config : RequestConfig D → RequestConfig D → RequestConfig D
  set_config c other = record c {
    scenario = other.scenario;
    priority = other.priority;
    time_interval = other.time_interval;
    distance_interval = other.distance_interval;
    max_accuracy = other.max_accuracy;
    fix_number = other.fix_number;
  }

  unfoldable pub is_same : RequestConfig D → RequestConfig D → Bool
  is_same c other =
      if not (c.scenario == other.scenario)
      then false
      else if not (c.scenario == scene_unset)
      then true
      else c.priority == other.priority

module _ {D : Type 0} (o : ParcelOps D) where
  open o use {P, write, read_int32, read_int64, read_bool, read_double, read_float, read_string16}

  unfoldable pub marshalling : Location D → P → P
  marshalling l p =
      let p = write (double l.latitude) p in
      let p = write (double l.longitude) p in
      let p = write (double l.altitude) p in
      let p = write (double l.accuracy) p in
      let p = write (double l.speed) p in
      let p = write (double l.direction) p in
      let p = write (int64 l.time_stamp) p in
      let p = write (int64 l.time_since_boot) p in
      let p = write (string16 l.additions) p in
      let p = write (int64 l.addition_size) p in
      let p = write (bool l.is_from_mock) p in
      let p = write (int32 l.source_type) p in
      let p = write (int32 l.floor_no) p in write (double l.floor_accuracy) p

  -- All fields are read, so the location that is read into does not matter.
  unfoldable pub read_from_parcel : P → Location D × P
  read_from_parcel p =
      let (latitude, p₁) = read_double p in
      let (longitude, p₂) = read_double p₁ in
      let (altitude, p₃) = read_double p₂ in
      let (accuracy, p₄) = read_double p₃ in
      let (speed, p₅) = read_double p₄ in
      let (direction, p₆) = read_double p₅ in
      let (time_stamp, p₇) = read_int64 p₆ in
      let (time_since_boot, p₈) = read_int64 p₇ in
      let (additions, p₉) = read_string16 p₈ in
      let (addition_size, q₁) = read_int64 p₉ in
      let (is_from_mock, q₂) = read_bool q₁ in
      let (source_type, q₃) = read_int32 q₂ in
      let (floor_no, q₄) = read_int32 q₃ in
      let (floor_accuracy, q₅) = read_double q₄ in
      (
        record {
          latitude = latitude;
          longitude = longitude;
          altitude = altitude;
          accuracy = accuracy;
          speed = speed;
          direction = direction;
          time_stamp = time_stamp;
          time_since_boot = time_since_boot;
          additions = additions;
          addition_size = addition_size;
          is_from_mock = is_from_mock;
          source_type = source_type;
          floor_no = floor_no;
          floor_accuracy = floor_accuracy;
        },
        q₅,
      )

  unfoldable pub config_marshalling : RequestConfig D → P → P
  config_marshalling c p =
      let p = write (int32 c.scenario) p in
      let p = write (int32 c.priority) p in
      let p = write (int32 c.time_interval) p in
      let p = write (double c.distance_interval) p in
      let p = write (float c.max_accuracy) p in write (int32 c.fix_number) p

  unfoldable pub config_read_from_parcel : RequestConfig D → P → RequestConfig D × P
  config_read_from_parcel c p =
      let (scenario, p₁) = read_int32 p in
      let (priority, p₂) = read_int32 p₁ in
      let (time_interval, p₃) = read_int32 p₂ in
      let (distance_interval, p₄) = read_double p₃ in
      let (max_accuracy, p₅) = read_float p₄ in
      let (fix_number, p₆) = read_int32 p₅ in
      (
        record c {
          scenario = scenario;
          priority = priority;
          time_interval = time_interval;
          distance_interval = distance_interval;
          max_accuracy = max_accuracy;
          fix_number = fix_number;
        },
        p₆,
      )
