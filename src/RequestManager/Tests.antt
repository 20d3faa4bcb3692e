-- ===== src/RequestManager/Tests.antt =====
-- Runs of the request manager, and the witnesses of its properties.
use gitee_oh_base_location.Base.{
  ℕ, [], any_by, int_eq, nat_eq, none, not, pos, refl, some, string_eq, true, ◌&&◌, ◌++◌, ◌+◌, ◌||◌,
  ◌∷◌, ◌≡◌, nat_beq,
}
use gitee_oh_base_location.Location.{is_same}
use gitee_oh_base_location.Request.{
  Request, get_proxy_name, config_proxies, get_proxy_name_by_priority,
}
use gitee_oh_base_location.Background.{contains}
use gitee_oh_base_location.WorkRecord.Columns.{columns}
use gitee_oh_base_location.Samples.{env, service, request, fast_fix, navigation, proxy}
use gitee_oh_base_location.RequestManager.{Service, find, modify, set_requesting, find_same}
use gitee_oh_base_location.RequestManager.Handlers.{
  is_permitted, handle_request, handle_start_locating, handle_stop_locating,
  handle_power_suspend_changed,
}
use gitee_oh_base_location.RequestManager.Balance.{count_by, is_start, is_stop, uses}
use gitee_oh_base_location.RequestManager.Reach.{
  created, started, initial, stepped, new_service, Reach-IsBalanced,
}
use gitee_oh_base_location.RequestManager.Work.{sends}
use gitee_oh_base_location.RequestManager.Sends.{sent_for, handle_request-sends}
use gitee_oh_base_location.RequestManager.Lists.{any_name, in_list, has_list}
use gitee_oh_base_location.RequestManager.Stop.{proxies, in_list-handle_stop_locating}
use gitee_oh_base_location.RequestManager.Start.{
  handle_start_locating_new_callback, handle_start_locating_second, handle_start_locating_same,
  handle_stop_locating-handle_start_locating,
}
use gitee_oh_base_location.RequestManager.Uids.{handle_stop_locating_same_uid}

find-service-1 : find service 1 ≡ some (request 50 fast_fix)
unfolding find
find-service-1 = refl

find-service-4 : find service 4 ≡ some (request 60 fast_fix)
unfolding find
find-service-4 = refl

find-service-5 : find service 5 ≡ some (request 60 navigation)
unfolding find
find-service-5 = refl

abbrev requesting_2 : Request ℕ
requesting_2 = record (request 60 navigation) { is_requesting = true }

find-service-2 : find service 2 ≡ some requesting_2
unfolding find
find-service-2 = refl

sent_test :
    sent_for env service (("network", 3 ∷ []) ∷ [])
    ≡ (
      "network",
      columns ""
          (record { uid = pos 20; pid = pos 7; name = "maps"; interval = pos 1; uuid = "a" } ∷ []),
    )
      ∷ []
unfolding find is_permitted gitee_oh_base_location.Common.ability_convert_to_id
    gitee_oh_base_location.Common.check_location_permission
    gitee_oh_base_location.Common.check_permission
sent_test = refl

handle_request-sends_example :
    sends (handle_request env service).trace
    ≡ sends service.trace ++ sent_for env service service.requests
handle_request-sends_example = handle_request-sends env service

abbrev after_start : Service ℕ
after_start =
    handle_start_locating env
      (record (new_service {D = ℕ} proxy) {
        store = (1, request 50 fast_fix) ∷ (new_service {D = ℕ} proxy).store;
      })
      1

Reach-IsBalanced_example :
    count_by (is_start 5) after_start.trace
    ≡ count_by (is_stop 5) after_start.trace + count_by (uses 5) after_start.store
Reach-IsBalanced_example =
    Reach-IsBalanced {b = proxy} {s = after_start}
      (stepped (stepped initial (created 1 (request 50 fast_fix) refl)) (started env 1)) 5

handle_start_locating_new_callback_example :
    (in_list (handle_start_locating env service 1) "network" 1 ≡ (
      in_list service "network" 1
      || (any_name (get_proxy_name (request 50 fast_fix)) "network"
          && (has_list service "network" && nat_beq 1 1))))
    × ((handle_start_locating env service 1).receivers ≡ (50, 1 ∷ []) ∷ service.receivers)
handle_start_locating_new_callback_example =
    handle_start_locating_new_callback env service 1 (request 50 fast_fix) find-service-1 "network"
      1 refl

in_list-handle_stop_locating_example :
    in_list (handle_stop_locating env service 60) "gps" 2
    ≡ (in_list service "gps" 2 && not (contains (2 ∷ []) 2 && any_name (proxies service 2) "gps"))
in_list-handle_stop_locating_example = in_list-handle_stop_locating env service 60 2 [] refl "gps" 2

handle_stop_locating-handle_start_locating_example :
    in_list (handle_stop_locating env (handle_start_locating env service 1) 50) "gps" 3
    ≡ in_list service "gps" 3
handle_stop_locating-handle_start_locating_example =
    handle_stop_locating-handle_start_locating env service 1 (request 50 fast_fix) find-service-1
      env "gps" 3 refl refl

different :
    find_same (modify service 4 (set_requesting (request 60 fast_fix))) fast_fix (2 ∷ []) ≡ none
unfolding find_same modify set_requesting find is_same
different = refl

fast_fix_network : any_name (get_proxy_name (request 60 fast_fix)) "network" ≡ true
unfolding get_proxy_name config_proxies get_proxy_name_by_priority
fast_fix_network = refl

handle_start_locating_second_example :
    (in_list (handle_start_locating env service 4) "network" 4 ≡ true)
    × (in_list (handle_stop_locating env (handle_start_locating env service 4) 60) "network" 4
        ≡ true)
handle_start_locating_second_example =
    handle_start_locating_second env service 4 (request 60 fast_fix) find-service-4 env "network" 2
      [] refl different refl fast_fix_network refl

same :
    find_same (modify service 5 (set_requesting (request 60 navigation))) navigation (2 ∷ [])
    ≡ some (2, requesting_2)
unfolding find_same modify set_requesting find is_same
same = refl

handle_start_locating_same_example :
    in_list (handle_start_locating env service 5) "gps" 5 ≡ in_list service "gps" 5
handle_start_locating_same_example =
    handle_start_locating_same env service 5 (request 60 navigation) find-service-5 "gps" 5 (2 ∷ [])
      2 requesting_2 refl same

navigation_listed : any_by (λ p. in_list service p 2) (get_proxy_name requesting_2) ≡ true
unfolding get_proxy_name config_proxies get_proxy_name_by_priority
navigation_listed = refl

handle_stop_locating_same_uid_example :
    (in_list (handle_stop_locating env service 60) "network" 3 ≡ true)
    × (handle_power_suspend_changed env
          (handle_stop_locating env service 60)
          (pos 7)
          (pos 20)
          (pos 4)
          (pos 2)
          true
        ≡ handle_stop_locating env service 60)
handle_stop_locating_same_uid_example =
    handle_stop_locating_same_uid env env service 60 2 3 requesting_2 "network" (pos 7) (pos 4)
      (pos 2) true refl find-service-2 navigation_listed refl refl
