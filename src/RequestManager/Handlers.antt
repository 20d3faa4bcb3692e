-- ===== src/RequestManager/Handlers.antt =====
-- The handlers of request_manager.cpp.
use gitee_oh_base_location.Base.{
  ℕ, Bool, List, Option, String, [], erase, false, if◌then◌else◌, int_eq, lookup, nat_eq, none, not,
  some, string_eq, true, ℤ, ◌&&◌, ◌++◌, ◌==◌, ◌||◌, ◌∷◌,
}
use gitee_oh_base_location.Common.{
  check_location_permission, check_approximately_permission, ability_convert_to_id, gnss_ability,
  network_ability, passive_ability,
}
use gitee_oh_base_location.Env.{Env, is_app_background}
use gitee_oh_base_location.Location.{scene_unset}
use gitee_oh_base_location.Request.{Request}
use gitee_oh_base_location.Fusion.{active_fusion_strategies, process}
use gitee_oh_base_location.Background.{
  on_delete_request_record, on_suspend, update_list_on_suspend, start_or_stop,
}
use gitee_oh_base_location.WorkRecord.{WorkRecord, new_record, add, set_device_id}
use gitee_oh_base_location.RequestManager.{
  Service, location_session_start, send_location_request, request_quick_fix, apply_requests, find,
  act, is_uid_in_processing, update_using_permission, restor_request, update_request_record,
  register_permission_callback, unregister_permission_callback,
}

-- The requests of all abilities, in the order of the loops over `requests_`.
unfoldable pub all_requests : List (String × List ℕ) → List ℕ
all_requests [] = []
all_requests ((name, hs) ∷ m) = hs ++ all_requests m

module _ {D : Type 0} where
  unfoldable pub is_permitted : Env → Request D → Bool
  is_permitted env r =
      check_location_permission env.tokens r.token_id r.first_token_id
      || check_approximately_permission env.tokens r.token_id r.first_token_id

  unfoldable pub add_request : Request D → WorkRecord → WorkRecord
  add_request r w = add w r.uid r.pid r.package_name r.config.time_interval r.uuid

  unfoldable pub add_request_to_work_record :
      Env → Service D → ℕ → WorkRecord → Service D × (WorkRecord × Bool)
  add_request_to_work_record env s h w =
      let s' = update_using_permission env s h in
      elim (find s' h) [
        | none ↦ (s', (w, false))
        | some r ↦
            if r.is_requesting && is_permitted env r
            then (s', (add_request r w, true))
            else (s', (w, false))
      ]

  unfoldable pub request_type : Request D → ℤ
  request_type r = if r.config.scenario == scene_unset then r.config.priority else r.config.scenario

  unfoldable pub active_locating_strategies : Service D → ℕ → Service D
  active_locating_strategies s h = elim (find s h) [
    | none ↦ s
    | some r ↦ record s { fusion = active_fusion_strategies s.fusion (request_type r) }
  ]

  -- The loop of `HandleRequest` over the requests of an ability.
  unfoldable pub add_requests : Env → List ℕ → Service D → WorkRecord → Service D × WorkRecord
  add_requests env [] s w = (s, w)
  add_requests env (h ∷ hs) s w =
      let (s', (w', added)) = add_request_to_work_record env s h w in
      add_requests env hs (if added then active_locating_strategies s' h else s') w'

  unfoldable pub quick_fix : Service D → Option Bool → Service D
  quick_fix s none = s
  quick_fix s (some state) = act s (request_quick_fix state)

  -- `Process` of the fusion controller, with the message it sends.
  unfoldable pub process_fusion : Service D → String → Service D
  process_fusion s ability_name =
      let (fusion', state) = process s.fusion ability_name in
      quick_fix (record s { fusion = fusion' }) state

  -- `InitDeviceId` is the empty string.
  unfoldable pub send_to_ability : Service D → String → WorkRecord → Service D
  send_to_ability s ability_name w =
      if ability_name == gnss_ability
        || (ability_name == network_ability || ability_name == passive_ability)
      then act s (send_location_request ability_name (set_device_id w ""))
      else s

  unfoldable pub proxy_send_location_request : Env → Service D → String → WorkRecord → Service D
  proxy_send_location_request env s ability_name w = elim (ability_convert_to_id ability_name) [
    | none ↦ s
    | some sa ↦
        if env.remote sa then process_fusion (send_to_ability s ability_name w) ability_name else s
  ]

  unfoldable pub handle_ability_request : Env → Service D → String → List ℕ → Service D
  handle_ability_request env s ability_name hs =
      let (s', w) = add_requests env hs s new_record in
      proxy_send_location_request env s' ability_name w

  unfoldable pub handle_abilities : Env → List (String × List ℕ) → Service D → Service D
  handle_abilities env [] s = s
  handle_abilities env ((name, hs) ∷ m) s =
      handle_abilities env m (handle_ability_request env s name hs)

  unfoldable pub handle_request : Env → Service D → Service D
  handle_request env s = handle_abilities env s.requests s

  -- What HandleStartLocating does for a request that `RestorRequest` calls new.
  unfoldable pub add_new_request : Env → Service D → ℕ → Service D
  add_new_request env s h = elim (find s h) [
    | none ↦ s
    | some r ↦
        let recorded = update_request_record (register_permission_callback s r.token_id) h true in
        act (update_using_permission env recorded h) (location_session_start h)
  ]

  unfoldable pub handle_start_locating : Env → Service D → ℕ → Service D
  handle_start_locating env s h =
      let (s', is_new) = restor_request s h in
      handle_request env (if is_new then add_new_request env s' h else s')

  unfoldable pub delete_request_record : Env → List ℕ → Service D → Service D
  delete_request_record env [] s = s
  delete_request_record env (h ∷ hs) s =
      let s' = update_using_permission env (update_request_record s h false) h in
      delete_request_record env hs
        (record s' { background = on_delete_request_record s'.background h })

  unfoldable pub unregister_all : List ℕ → Service D → Service D
  unregister_all [] s = s
  unregister_all (h ∷ hs) s = elim (find s h) [
    | none ↦ unregister_all hs s
    | some r ↦ unregister_all hs (unregister_permission_callback s r.token_id)
  ]

  unfoldable pub handle_stop_locating : Env → Service D → ℕ → Service D
  handle_stop_locating env s callback = elim (lookup callback s.receivers) [
    | none ↦ s
    | some [] ↦ s
    | some (h ∷ hs) ↦
        let s' = unregister_all (h ∷ hs) s in
        let erased = record s' { receivers = erase callback s'.receivers } in
        handle_request env (delete_request_record env (h ∷ hs) erased)
  ]

  -- OnSuspend of the background proxy, with the permission record that it has this class update.
  unfoldable pub suspend_request : Env → Bool → Bool → ℕ → Service D → Service D
  suspend_request env active subscribed h s = elim (find s h) [
    | none ↦ s
    | some r ↦
        let s' = if s.background.feature_switch then update_using_permission env s h else s in
        record s' { background = on_suspend env s'.background (find s') h r active subscribed }
  ]

  unfoldable pub suspend_requests : Env → ℤ → ℤ → Bool → Bool → List ℕ → Service D → Service D
  suspend_requests env pid uid active subscribed [] s = s
  suspend_requests env pid uid active subscribed (h ∷ hs) s = elim (find s h) [
    | none ↦ suspend_requests env pid uid active subscribed hs s
    | some r ↦
        suspend_requests env pid uid active subscribed hs
          (if r.uid == uid && r.pid == pid then suspend_request env active subscribed h s else s)
  ]

  -- `foreground` is the number of APP_STATE_FOREGROUND, and `subscribed` what `Subscribe` answers,
  -- where it is asked again.
  unfoldable pub handle_power_suspend_changed : Env → Service D → ℤ → ℤ → ℤ → ℤ → Bool → Service D
  handle_power_suspend_changed env s pid uid state foreground subscribed =
      if not (is_uid_in_processing s uid) then s else elim s.requests [
        | [] ↦ s
        | _ ↦
            act
              (suspend_requests env pid uid (state == foreground) subscribed
                (all_requests s.requests) s)
              apply_requests
      ]

  -- UpdateListOnRequestChange of the background proxy.
  unfoldable pub change_request : Env → ℕ → Service D → Service D
  change_request env h s = elim (find s h) [
    | none ↦ s
    | some r ↦ elim (env.bundle_name r.uid) [
      | none ↦ s
      | some bundle_name ↦
          let s' = update_using_permission env s h in
          let active = not (is_app_background env bundle_name) in
          record s' {
            background =
                start_or_stop (update_list_on_suspend env s'.background (find s') h r active);
          }
    ]
  ]

  unfoldable pub change_requests : Env → ℕ → List ℕ → Service D → Service D
  change_requests env token [] s = s
  change_requests env token (h ∷ hs) s = elim (find s h) [
    | none ↦ change_requests env token hs s
    | some r ↦
        change_requests env token hs (if token == r.token_id then change_request env h s else s)
  ]

  unfoldable pub handle_permission_changed : Env → Service D → ℕ → Service D
  handle_permission_changed env s token = change_requests env token (all_requests s.requests) s
