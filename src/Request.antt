-- ===== src/Request.antt =====
-- services/location_locator/locator/source/request.cpp: one request of an app. Its configuration and
-- its last location are allocated by the constructor and taken to be there; its callback is named by
-- a number, as a pointer is compared only.
pub mod Proxy
mod Tests
use gitee_oh_base_location.Base.{
  ℕ, Bool, List, String, [], if◌then◌else◌, int_eq, nat_eq, string_eq, ℤ, ◌==◌, ◌||◌, ◌∷◌,
}
use gitee_oh_base_location.Common.{gnss_ability, network_ability, passive_ability}
use gitee_oh_base_location.Location.{
  Location, RequestConfig, new_request_config, set_config, scene_unset, scene_navigation,
  scene_trajectory_tracking, scene_car_hailing, scene_daily_life_service, scene_no_power,
  priority_accuracy, priority_low_power, priority_fast_first_fix,
}

pub record Request (D : Type 0) : Type 0 where
  pub uid : ℤ
  pub pid : ℤ
  pub token_id : ℕ
  pub first_token_id : ℕ
  pub package_name : String
  pub uuid : String
  pub config : RequestConfig D
  pub callback : ℕ
  pub is_requesting : Bool
  pub is_using_location_perm : Bool
  pub is_using_background_perm : Bool
  pub is_using_approximately_perm : Bool
  pub last_location : Location D

module _ {D : Type 0} where
  unfoldable pub set_request_config : Request D → RequestConfig D → Request D
  set_request_config r config = record r { config = set_config r.config config }

  -- The eight fields that `SetLastLocation` copies.
  unfoldable pub copy_location : Location D → Location D → Location D
  copy_location l location = record l {
    latitude = location.latitude;
    longitude = location.longitude;
    altitude = location.altitude;
    accuracy = location.accuracy;
    speed = location.speed;
    direction = location.direction;
    time_stamp = location.time_stamp;
    time_since_boot = location.time_since_boot;
  }

  unfoldable pub set_last_location : Request D → Location D → Request D
  set_last_location r location = record r { last_location = copy_location r.last_location location }

  unfoldable pub get_proxy_name_by_priority : RequestConfig D → List String
  get_proxy_name_by_priority c =
      if c.priority == priority_accuracy
      then gnss_ability ∷ []
      else if c.priority == priority_low_power
      then network_ability ∷ []
      else if c.priority == priority_fast_first_fix
      then gnss_ability ∷ network_ability ∷ []
      else []

  unfoldable pub config_proxies : RequestConfig D → List String
  config_proxies c =
      if c.scenario == scene_navigation
        || (c.scenario == scene_trajectory_tracking || c.scenario == scene_car_hailing)
      then gnss_ability ∷ []
      else if c.scenario == scene_daily_life_service
      then network_ability ∷ []
      else if c.scenario == scene_no_power
      then passive_ability ∷ []
      else if c.scenario == scene_unset
      then get_proxy_name_by_priority c
      else []

  unfoldable pub get_proxy_name : Request D → List String
  get_proxy_name r = config_proxies r.config
