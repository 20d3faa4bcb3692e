-- ===== src/Background/Tests.antt =====
-- Runs of the background proxy, and the witnesses of its properties.
use gitee_oh_base_location.Base.{
  ℕ, Option, [], false, if◌then◌else◌, not, pos, refl, some, true, ◌&&◌, ◌||◌, ◌∷◌, ◌≡◌, ◌≤◌,
}
use gitee_oh_base_location.Request.{Request}
use gitee_oh_base_location.Samples.{env, request, fast_fix}
use gitee_oh_base_location.Background.{
  Background, new_background, list_of, contains, app_requests, requests_num_max, check_permission,
  check_max_request_num, on_suspend, update_list_on_suspend,
}
use gitee_oh_base_location.Background.Suspend.{contains-update_list_on_suspend}
use gitee_oh_base_location.Background.Events.{
  created, stepped, suspended, starts, Reach-IsWaitingRight,
}
use gitee_oh_base_location.Background.Limit.{Reach-IsLimited}

-- User 100 is the current one, and request 1 is in the list of user 101.
abbrev two_users : Background
two_users = record {
  is_locating = false;
  proxy_switch = true;
  feature_switch = true;
  is_waiting = false;
  is_user_switch_subscribed = true;
  cur_user_id = pos 100;
  lists = (0, 2 ∷ []) ∷ (1, 1 ∷ []) ∷ [];
  next_list = 2;
  requests_map = (pos 100, 0) ∷ (pos 101, 1) ∷ [];
  requests_list = 0;
  threads = [];
}

abbrev requests : ℕ → Option (Request ℕ)
requests h = some (request 50 fast_fix)

-- The app of request 1, of user 100 whose list is 0, is frozen.
contains-update_list_on_suspend_example :
    contains
      (list_of (update_list_on_suspend env two_users requests 1 (request 50 fast_fix) false) 0)
      1
    ≡ (not false
        && (check_permission env (request 50 fast_fix)
            && (contains (list_of two_users 0) 1
                || (true && check_max_request_num env two_users requests (pos 20) "maps"))))
contains-update_list_on_suspend_example =
    contains-update_list_on_suspend env two_users requests 1 1 (request 50 fast_fix) false 0 0
      (2 ∷ []) refl refl

abbrev frozen : Background
frozen =
    on_suspend env (new_background (pos 100) true true) requests 1 (request 50 fast_fix) false true

Reach-IsWaitingRight_example : starts frozen.threads ≡ (if frozen.is_waiting then 1 else 0)
Reach-IsWaitingRight_example =
    Reach-IsWaitingRight requests {user = pos 100} {subscribed = true} {switch_on = true}
      {b = frozen}
      (stepped created
        (suspended env 1 (request 50 fast_fix) (request 50 fast_fix) false true refl refl refl))

Reach-IsLimited_example :
    app_requests requests (pos 20) "maps" (list_of frozen 0) ≤ requests_num_max
Reach-IsLimited_example =
    Reach-IsLimited requests {user = pos 100} {subscribed = true} {switch_on = true} {b = frozen}
      (stepped created
        (suspended env 1 (request 50 fast_fix) (request 50 fast_fix) false true refl refl refl))
      0 (pos 20) "maps"
