-- ===== src/Samples.antt =====
-- Concrete requests, an environment and states of the service, for the runs of the modules.
use gitee_oh_base_location.Base.{ℕ, [], false, pos, some, true, ℤ, ◌∷◌}
use gitee_oh_base_location.Common.{AccessTokens, token_hap}
use gitee_oh_base_location.Env.{Env}
use gitee_oh_base_location.Location.{
  Location, RequestConfig, scene_unset, scene_navigation, priority_fast_first_fix,
}
use gitee_oh_base_location.Request.{Request}
use gitee_oh_base_location.Fusion.{new_fusion}
use gitee_oh_base_location.Background.{Background, new_background}
use gitee_oh_base_location.RequestManager.{Service}

abbrev pub all_granted : AccessTokens
all_granted = record {
  token_type = λ token. token_hap;
  verify = λ token permission. true;
  verify_first = λ token first permission. true;
  is_system_app = λ token. false;
}

-- Every permission is held, all abilities are there, and the app "maps" is in the background.
abbrev pub env : Env
env = record {
  tokens = all_granted;
  bundle_name = λ uid. some "maps";
  foreground = some ("home" ∷ []);
  user_id = λ uid. pos 100;
  remote = λ ability. true;
}

abbrev pub place : ℕ → Location ℕ
place x = record {
  latitude = x;
  longitude = x;
  altitude = 0;
  accuracy = 7;
  speed = 0;
  direction = 0;
  time_stamp = pos 3;
  time_since_boot = pos 0;
  additions = "";
  addition_size = pos 0;
  is_from_mock = false;
  source_type = pos 1;
  floor_no = pos 0;
  floor_accuracy = 0;
}

abbrev pub config : ℤ → ℤ → RequestConfig ℕ
config scenario priority = record {
  scenario = scenario;
  priority = priority;
  time_interval = pos 1;
  distance_interval = 0;
  max_accuracy = 0;
  fix_number = pos 0;
  time_out = pos 30;
}

abbrev pub navigation : RequestConfig ℕ
navigation = config scene_navigation (pos 0)

abbrev pub fast_fix : RequestConfig ℕ
fast_fix = config scene_unset priority_fast_first_fix

abbrev pub request : ℕ → RequestConfig ℕ → Request ℕ
request callback c = record {
  uid = pos 20;
  pid = pos 7;
  token_id = 5;
  first_token_id = 0;
  package_name = "maps";
  uuid = "a";
  config = c;
  callback = callback;
  is_requesting = false;
  is_using_location_perm = false;
  is_using_background_perm = false;
  is_using_approximately_perm = false;
  last_location = place 9;
}

abbrev pub proxy : Background
unfolding new_background
proxy = new_background (pos 100) true true

-- Request 1 has been made, for callback 50. Requests 2 and 3 have been started, for callbacks 60 and
-- 70. Request 4 has been made, for callback 60 as well.
abbrev pub service : Service ℕ
service = record {
  store =
      (1, request 50 fast_fix)
      ∷ (2, record (request 60 navigation) { is_requesting = true })
      ∷ (3, record (request 70 fast_fix) { is_requesting = true })
      ∷ (4, request 60 fast_fix)
      ∷ (5, request 60 navigation)
      ∷ [];
  requests = ("gps", 2 ∷ 3 ∷ []) ∷ ("network", 3 ∷ []) ∷ ("passive", []) ∷ [];
  receivers = (60, 2 ∷ []) ∷ (70, 3 ∷ []) ∷ [];
  running_uids = pos 20 ∷ pos 20 ∷ pos 20 ∷ [];
  permission_tokens = 5 ∷ [];
  background = proxy;
  fusion = new_fusion;
  trace = [];
}
