-- ===== src/RequestManager.antt =====
-- services/location_locator/locator/source/request_manager.cpp, with the maps of locator_ability.cpp
-- that it works on and the features GNSS, network and passive. Requests are shared pointers: they are
-- named by numbers and stand in `store`, and a number that is not there is a null pointer. A map is
-- an association list, in key order where the code goes through it. What leaves the process is
-- appended to `trace`.
mod Tests
pub mod Handlers
pub mod Permission
pub mod Balance
pub mod BalanceKept
pub mod Reach
pub mod Work
pub mod Sends
pub mod Lists
pub mod View
pub mod Stop
pub mod Start
pub mod Uids
use gitee_oh_base_location.Base.{
  ℕ, Bool, List, Option, String, [], any_by, false, filter_by, if◌then◌else◌, int_eq, lookup,
  nat_eq, none, not, some, string_eq, true, update, ℤ, ◌&&◌, ◌++◌, ◌==◌, ◌∷◌,
}
use gitee_oh_base_location.Common.{
  SystemAbility, access_location, access_approximately_location, access_background_location,
  check_location_permission, check_approximately_permission, check_background_permission,
  ability_convert_to_id, gnss_ability, network_ability, passive_ability,
}
use gitee_oh_base_location.Env.{Env, is_app_background}
use gitee_oh_base_location.Location.{RequestConfig, is_same, scene_unset}
use gitee_oh_base_location.Request.{Request, set_request_config, get_proxy_name}
use gitee_oh_base_location.Fusion.{Fusion, active_fusion_strategies, process}
use gitee_oh_base_location.Background.{
  Background, on_delete_request_record, on_suspend, update_list_on_suspend, start_or_stop,
}
use gitee_oh_base_location.WorkRecord.{WorkRecord, new_record, add, set_device_id}

pub data Action : Type 0 where
  start_using_permission : (token : ℕ) (permission : String) → Action
  stop_using_permission : (token : ℕ) (permission : String) → Action
  location_session_start : (request : ℕ) → Action
  send_location_request : (ability : String) (work : WorkRecord) → Action
  request_quick_fix : (state : Bool) → Action
  apply_requests : Action

pub record Service (D : Type 0) : Type 0 where
  pub store : List (ℕ × Request D)
  pub requests : List (String × List ℕ)
  pub receivers : List (ℕ × List ℕ)
  pub running_uids : List ℤ
  pub permission_tokens : List ℕ
  pub background : Background
  pub fusion : Fusion
  pub trace : List Action

-- The loop that erases a request from the list of an ability, and its uid from `runningUids_`.
unfoldable pub erase_request : ℕ → ℤ → List ℕ → List ℤ → List ℕ × List ℤ
erase_request h uid [] uids = ([], uids)
erase_request h uid (k ∷ ks) uids =
    if h == k
    then erase_request h uid ks (filter_by (λ u. not (u == uid)) uids)
    else (let (ks', uids') = erase_request h uid ks uids in (k ∷ ks', uids'))

module _ {D : Type 0} where
  unfoldable pub find : Service D → ℕ → Option (Request D)
  find s h = lookup h s.store

  unfoldable pub modify : Service D → ℕ → Request D → Service D
  modify s h r = record s { store = update h r s.store }

  unfoldable pub act : Service D → Action → Service D
  act s a = record s { trace = s.trace ++ a ∷ [] }

  unfoldable pub is_uid_in_processing : Service D → ℤ → Bool
  is_uid_in_processing s uid = any_by (λ i. i == uid) s.running_uids

  -- One permission of a request: `granted` is whether it is in use from now on, `used` whether it
  -- was, and `r` is the request with its flag set to `granted`.
  unfoldable pub use_permission : Service D → ℕ → ℕ → String → Bool → Bool → Request D → Service D
  use_permission s h token permission granted used r =
      if granted
      then (if used then s else modify (act s (start_using_permission token permission)) h r)
      else (if used then modify (act s (stop_using_permission token permission)) h r else s)

  unfoldable pub update_using_location_permission : Env → Service D → ℕ → Service D
  update_using_location_permission env s h = elim (find s h) [
    | none ↦ s
    | some r ↦
        let granted =
          is_uid_in_processing s r.uid
          && check_location_permission env.tokens r.token_id r.first_token_id in
        use_permission s h r.token_id access_location granted r.is_using_location_perm
          (record r { is_using_location_perm = granted })
  ]

  unfoldable pub update_using_approximately_permission : Env → Service D → ℕ → Service D
  update_using_approximately_permission env s h = elim (find s h) [
    | none ↦ s
    | some r ↦
        let granted =
          is_uid_in_processing s r.uid
          && check_approximately_permission env.tokens r.token_id r.first_token_id in
        use_permission s h r.token_id access_approximately_location granted
          r.is_using_approximately_perm (record r { is_using_approximately_perm = granted })
  ]

  unfoldable pub update_using_background_permission : Env → Service D → ℕ → Service D
  update_using_background_permission env s h = elim (find s h) [
    | none ↦ s
    | some r ↦ elim (env.bundle_name r.uid) [
      | none ↦ s
      | some bundle_name ↦
          let granted =
            is_app_background env bundle_name
            && (is_uid_in_processing s r.uid
                && check_background_permission env.tokens r.token_id r.first_token_id) in
          use_permission s h r.token_id access_background_location granted
            r.is_using_background_perm (record r { is_using_background_perm = granted })
    ]
  ]

  unfoldable pub update_using_permission : Env → Service D → ℕ → Service D
  update_using_permission env s h = update_using_approximately_permission env s h

  -- The request of a list that asks for the same, by `IsSame`.
  unfoldable pub find_same : Service D → RequestConfig D → List ℕ → Option (ℕ × Request D)
  find_same s config [] = none
  find_same s config (h ∷ hs) = elim (find s h) [
    | none ↦ find_same s config hs
    | some r ↦ if is_same config r.config then some (h, r) else find_same s config hs
  ]

  -- The end of `RestorRequest`, for the requests of the same callback. The list that the new request
  -- is pushed to is a copy, and is dropped.
  unfoldable pub update_same : Service D → RequestConfig D → List ℕ → Service D × Bool
  update_same s config hs = elim (find_same s config hs) [
    | some (k, old) ↦ (modify s k (set_request_config old config), false)
    | none ↦ (s, true)
  ]

  unfoldable pub restore_receiver : Service D → ℕ → Request D → Service D × Bool
  restore_receiver s h r = elim (lookup r.callback s.receivers) [
    | none ↦ (record s { receivers = (r.callback, h ∷ []) ∷ s.receivers }, true)
    | some hs ↦ update_same s r.config hs
  ]

  -- The new request, requesting from now on.
  unfoldable pub set_requesting : Request D → Request D
  set_requesting r = record r { is_requesting = true }

  unfoldable pub restor_request : Service D → ℕ → Service D × Bool
  restor_request s h = elim (find s h) [
    | none ↦ (s, false)
    | some r ↦ restore_receiver (modify s h (set_requesting r)) h r
  ]

  -- `UpdateRequestRecord` for one ability.
  unfoldable pub update_ability_record : Service D → ℕ → ℤ → Bool → String → Service D
  update_ability_record s h uid should_insert ability_name = elim (lookup ability_name s.requests) [
    | none ↦ s
    | some hs ↦
        if should_insert
        then record s {
          requests = update ability_name (hs ++ h ∷ []) s.requests;
          running_uids = s.running_uids ++ uid ∷ [];
        }
        else (let (hs', uids') = erase_request h uid hs s.running_uids in
            record s { requests = update ability_name hs' s.requests; running_uids = uids' })
  ]

  unfoldable pub update_ability_records : ℕ → ℤ → Bool → List String → Service D → Service D
  update_ability_records h uid should_insert [] s = s
  update_ability_records h uid should_insert (name ∷ names) s =
      update_ability_records h uid should_insert names
        (update_ability_record s h uid should_insert name)

  unfoldable pub update_request_record : Service D → ℕ → Bool → Service D
  update_request_record s h should_insert = elim (find s h) [
    | none ↦ s
    | some r ↦ update_ability_records h r.uid should_insert (get_proxy_name r) s
  ]

  unfoldable pub register_permission_callback : Service D → ℕ → Service D
  register_permission_callback s token = record s {
    permission_tokens = token ∷ filter_by (λ t. not (t == token)) s.permission_tokens;
  }

  unfoldable pub unregister_permission_callback : Service D → ℕ → Service D
  unregister_permission_callback s token = record s {
    permission_tokens = filter_by (λ t. not (t == token)) s.permission_tokens;
  }
