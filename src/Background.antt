-- ===== src/Background.antt =====
-- services/location_locator/locator/source/locator_background_proxy.cpp: the proxy that keeps
-- locating for frozen apps. Requests are shared pointers, named by numbers. A request list is shared
-- too: `requestsMap_` names one list for each user, and `requestsList_` is the list of the current
-- user, also after that user has left the map. So the lists stand in a store, `lists`.
-- `threads` are the detached threads that have been started and have not taken the lock yet.
mod Tests
pub mod Suspend
pub mod Users
pub mod Events
pub mod Limit
use gitee_oh_base_location.Base.{
  ℕ, Bool, List, Option, String, [], any_by, erase, false, filter_by, if◌then◌else◌, int_eq, lookup,
  ltb, nat_eq, none, not, pos, some, string_eq, suc, true, update, ℤ, ◌&&◌, ◌++◌, ◌+◌, ◌==◌, ◌||◌,
  ◌∷◌,
}
use gitee_oh_base_location.Common.{
  check_location_permission, check_approximately_permission, check_background_permission,
}
use gitee_oh_base_location.Env.{Env}
use gitee_oh_base_location.Request.{Request}

pub data Thread : Type 0 where
  start_thread stop_thread : Thread

pub record Background : Type 0 where
  pub is_locating : Bool
  pub proxy_switch : Bool
  pub feature_switch : Bool
  pub is_waiting : Bool
  pub is_user_switch_subscribed : Bool
  pub cur_user_id : ℤ
  pub lists : List (ℕ × List ℕ)
  pub next_list : ℕ
  pub requests_map : List (ℤ × ℕ)
  pub requests_list : ℕ
  pub threads : List Thread

-- The constructor, for the current user, the answer of `Subscribe` and the location switch.
unfoldable pub new_background : ℤ → Bool → Bool → Background
new_background user subscribed switch_on = record {
  is_locating = false;
  proxy_switch = switch_on;
  feature_switch = true;
  is_waiting = false;
  is_user_switch_subscribed = subscribed;
  cur_user_id = user;
  lists = (0, []) ∷ [];
  next_list = 1;
  requests_map = (user, 0) ∷ [];
  requests_list = 0;
  threads = [];
}

-- The requests of a list of the store.
unfoldable pub list_of : Background → ℕ → List ℕ
list_of b list = elim (lookup list b.lists) [ none ↦ [] | some rs ↦ rs ]

unfoldable pub get_requests_in_proxy : Background → List ℕ
get_requests_in_proxy b = list_of b b.requests_list

abbrev pub is_nil : List ℕ → Bool
is_nil [] = true
is_nil (r ∷ rs) = false

unfoldable pub start_locator : Background → Background
start_locator b =
    if b.is_locating || (not b.proxy_switch || b.is_waiting)
    then b
    else record b { is_waiting = true; threads = b.threads ++ start_thread ∷ [] }

unfoldable pub stop_locator : Background → Background
stop_locator b =
    if not b.is_locating then b else record b { threads = b.threads ++ stop_thread ∷ [] }

-- What StartLocatorThread does under the lock, and whether it goes on to start locating.
unfoldable pub start_locked : Background → Background × Bool
start_locked b =
    let b' = record b { is_waiting = false } in
    if b'.is_locating || (not b'.proxy_switch || is_nil (get_requests_in_proxy b'))
    then (b', false)
    else (record b' { is_locating = true }, true)

-- What StopLocatorThread does under the lock, and whether it goes on to stop locating.
unfoldable pub stop_locked : Background → Background × Bool
stop_locked b = if not b.is_locating then (b, false) else (record b { is_locating = false }, true)

-- The end of OnSuspend, UpdateListOnRequestChange and OnUserSwitch.
unfoldable pub start_or_stop : Background → Background
start_or_stop b = if is_nil (get_requests_in_proxy b) then stop_locator b else start_locator b

unfoldable pub on_sa_state_change : Background → Bool → Background
on_sa_state_change b enable =
    if (if enable then b.proxy_switch else not b.proxy_switch) || not b.feature_switch
    then b
    else let b' = record b { proxy_switch = enable } in
      if enable && not (is_nil (get_requests_in_proxy b'))
      then start_locator b'
      else stop_locator b'

-- `std::list::remove`: all occurrences.
abbrev pub remove_all : ℕ → List ℕ → List ℕ
remove_all r rs = filter_by (λ x. not (x == r)) rs

abbrev pub contains : List ℕ → ℕ → Bool
contains rs r = any_by (λ x. x == r) rs

-- OnDeleteRequestRecord looks in the list of the current user only.
unfoldable pub on_delete_request_record : Background → ℕ → Background
on_delete_request_record b request =
    if not b.feature_switch
    then b
    else if contains (get_requests_in_proxy b) request
    then (let rs = remove_all request (get_requests_in_proxy b) in
        let b' = record b { lists = update b.requests_list rs b.lists } in
        if is_nil rs then stop_locator b' else b')
    else b

unfoldable pub is_callback_in_proxy : Background → (ℕ → ℕ) → ℕ → Bool
is_callback_in_proxy b callback_of callback =
    if not b.feature_switch
    then false
    else any_by (λ r. callback_of r == callback) (get_requests_in_proxy b)

unfoldable pub update_list_on_user_switch : Background → ℤ → Background
update_list_on_user_switch b user = elim (lookup user b.requests_map) [
  | none ↦ record b {
    lists = (b.next_list, []) ∷ b.lists;
    next_list = b.next_list + 1;
    requests_map = (user, b.next_list) ∷ b.requests_map;
    requests_list = b.next_list;
    cur_user_id = user;
  }
  | some list ↦ record b { requests_list = list; cur_user_id = user }
]

unfoldable pub on_user_switch : Background → ℤ → Background
on_user_switch b user = start_or_stop (update_list_on_user_switch b user)

-- The list of a removed user is dropped from the map; the current list stays in use.
unfoldable pub on_user_remove : Background → ℤ → Background
on_user_remove b user = record b { requests_map = erase user b.requests_map }

abbrev pub requests_num_max : ℕ
requests_num_max = 1

module _ {D : Type 0} where
  unfoldable pub check_permission : Env → Request D → Bool
  check_permission env r =
      (check_location_permission env.tokens r.token_id r.first_token_id
        || check_approximately_permission env.tokens r.token_id r.first_token_id)
      && check_background_permission env.tokens r.token_id r.first_token_id

  -- The requests of an app in a list, up to the store `find` of requests.
  unfoldable pub app_requests : (ℕ → Option (Request D)) → ℤ → String → List ℕ → ℕ
  app_requests find uid package_name [] = 0
  app_requests find uid package_name (h ∷ hs) = elim (find h) [
    | none ↦ app_requests find uid package_name hs
    | some r ↦
        if r.uid == uid && package_name == r.package_name
        then suc (app_requests find uid package_name hs)
        else app_requests find uid package_name hs
  ]

  unfoldable pub check_max_request_num :
      Env → Background → (ℕ → Option (Request D)) → ℤ → String → Bool
  check_max_request_num env b find uid package_name =
      elim (lookup (env.user_id uid) b.requests_map) [
        | none ↦ false
        | some list ↦ ltb (app_requests find uid package_name (list_of b list)) requests_num_max
      ]

  -- The list of a user after UpdateListOnSuspend: a request of an app that is active, or that has
  -- lost its permission, leaves it; one of a frozen app enters it, within the limit for its app.
  unfoldable pub suspended_list :
      Env → Background → (ℕ → Option (Request D)) → ℕ → Request D → Bool → List ℕ → List ℕ
  suspended_list env b find h r active rs =
      if contains rs h
      then if active || not (check_permission env r) then remove_all h rs else rs
      else if not active
          && (check_permission env r
              && ((r.config.fix_number == pos 0)
                  && check_max_request_num env b find r.uid r.package_name))
      then rs ++ h ∷ []
      else rs

  -- UpdateListOnSuspend after the permission record of the request is up to date.
  unfoldable pub update_list_on_suspend :
      Env → Background → (ℕ → Option (Request D)) → ℕ → Request D → Bool → Background
  update_list_on_suspend env b find h r active = elim (lookup (env.user_id r.uid) b.requests_map) [
    | none ↦ b
    | some list ↦ record b {
      lists = update list (suspended_list env b find h r active (list_of b list)) b.lists;
    }
  ]

  -- OnSuspend from there on; `subscribed` is the answer of `Subscribe`, where it is asked again.
  unfoldable pub on_suspend :
      Env → Background → (ℕ → Option (Request D)) → ℕ → Request D → Bool → Bool → Background
  on_suspend env b find h r active subscribed =
      if not b.feature_switch
      then b
      else let b' = record b {
        is_user_switch_subscribed = b.is_user_switch_subscribed || subscribed;
      } in
        start_or_stop (update_list_on_suspend env b' find h r active)
