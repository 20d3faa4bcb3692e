-- ===== src/RequestManager/Reach.antt =====
-- The service over time: its handlers, in any order.
use gitee_oh_base_location.Base.{
  ℕ, Bool, List, Option-cases, [], arith, inl, inr, ℤ, ◌∷◌, false, if◌then◌else◌, int_eq, lookup,
  nat_eq, refl, string_eq, true, erase, ◌&&◌, ◌==◌, ◌≡◌,
}
use gitee_oh_base_location.Env.{Env}
use gitee_oh_base_location.Request.{Request}
use gitee_oh_base_location.Fusion.{new_fusion}
use gitee_oh_base_location.Background.{Background, on_delete_request_record}
use gitee_oh_base_location.RequestManager.{
  Service, location_session_start, apply_requests, find, update_using_permission, restor_request,
  update_request_record, register_permission_callback, unregister_permission_callback,
}
use gitee_oh_base_location.RequestManager.Handlers.{
  handle_request, add_new_request, handle_start_locating, delete_request_record, unregister_all,
  handle_stop_locating, suspend_request, suspend_requests, handle_power_suspend_changed,
  change_request, change_requests, handle_permission_changed, all_requests,
}
use gitee_oh_base_location.RequestManager.Balance.{
  IsBalanced, update_using_permission-IsBalanced, act-IsBalanced,
}
use gitee_oh_base_location.RequestManager.BalanceKept.{
  restor_request-IsBalanced, update_request_record-IsBalanced, if-IsBalanced,
  handle_request-IsBalanced,
}

module _ {D : Type 0} where
  add_new_request-IsBalanced :
      (env : Env) (s : Service D) (h : ℕ) → IsBalanced s → IsBalanced (add_new_request env s h)
  unfolding add_new_request register_permission_callback
  add_new_request-IsBalanced env s h v = elim (Option-cases (find s h)) [
    | inl e ↦ rw (e, add_new_request) v
    | inr (r, e) ↦
        let registered = register_permission_callback s r.token_id in
        let recorded = update_request_record registered h true in
        let v' = update_request_record-IsBalanced registered h true v in
        rw (e, add_new_request)
          (act-IsBalanced (update_using_permission env recorded h) (location_session_start h)
            (λ t. (refl, refl)) (update_using_permission-IsBalanced env recorded h v'))
  ]

  handle_start_locating-IsBalanced :
      (env : Env) (s : Service D) (h : ℕ)
      → IsBalanced s
      → IsBalanced (handle_start_locating env s h)
  unfolding handle_start_locating
  handle_start_locating-IsBalanced env s h v =
      let (s', is_new) = restor_request s h in
      let v' = restor_request-IsBalanced s h v in
      handle_request-IsBalanced env (if is_new then add_new_request env s' h else s') (
        if-IsBalanced is_new (add_new_request env s' h) s' (add_new_request-IsBalanced env s' h v')
          v')

  delete_request_record-IsBalanced :
      (env : Env) (hs : List ℕ) (s : Service D)
      → IsBalanced s
      → IsBalanced (delete_request_record env hs s)
  unfolding delete_request_record
  delete_request_record-IsBalanced env [] s v = v
  delete_request_record-IsBalanced env (h ∷ hs) s v =
      let s' = update_using_permission env (update_request_record s h false) h in
      delete_request_record-IsBalanced env hs
        (record s' { background = on_delete_request_record s'.background h })
        (update_using_permission-IsBalanced env (update_request_record s h false) h
          (update_request_record-IsBalanced s h false v))

  unregister_all-IsBalanced :
      (hs : List ℕ) (s : Service D) → IsBalanced s → IsBalanced (unregister_all hs s)
  unfolding unregister_all unregister_permission_callback
  unregister_all-IsBalanced [] s v = v
  unregister_all-IsBalanced (h ∷ hs) s v = elim (Option-cases (find s h)) [
    | inl e ↦ rw (e, unregister_all) (unregister_all-IsBalanced hs s v)
    | inr (r, e) ↦
        rw (e, unregister_all)
          (unregister_all-IsBalanced hs (unregister_permission_callback s r.token_id) v)
  ]

  handle_stop_locating-IsBalanced :
      (env : Env) (s : Service D) (callback : ℕ)
      → IsBalanced s
      → IsBalanced (handle_stop_locating env s callback)
  unfolding handle_stop_locating
  handle_stop_locating-IsBalanced env s callback v =
      elim (Option-cases (lookup callback s.receivers)) [
        | inl e ↦ rw (e, handle_stop_locating) v
        | inr ([], e) ↦ rw (e, handle_stop_locating) v
        | inr (h ∷ hs, e) ↦
            let s' = unregister_all (h ∷ hs) s in
            let erased = record s' { receivers = erase callback s'.receivers } in
            rw (e, handle_stop_locating)
              (handle_request-IsBalanced env (delete_request_record env (h ∷ hs) erased) (
                delete_request_record-IsBalanced env (h ∷ hs) erased
                  (unregister_all-IsBalanced (h ∷ hs) s v)))
      ]

  suspend_request-IsBalanced :
      (env : Env) (active subscribed : Bool) (h : ℕ) (s : Service D)
      → IsBalanced s
      → IsBalanced (suspend_request env active subscribed h s)
  unfolding suspend_request
  suspend_request-IsBalanced env active subscribed h s v = elim (Option-cases (find s h)) [
    | inl e ↦ rw (e, suspend_request) v
    | inr (r, e) ↦
        rw (e, suspend_request)
          (if-IsBalanced s.background.feature_switch (update_using_permission env s h) s
            (update_using_permission-IsBalanced env s h v) v)
  ]

  suspend_requests-IsBalanced :
      (env : Env) (pid uid : ℤ) (active subscribed : Bool) (hs : List ℕ) (s : Service D)
      → IsBalanced s
      → IsBalanced (suspend_requests env pid uid active subscribed hs s)
  unfolding suspend_requests
  suspend_requests-IsBalanced env pid uid active subscribed [] s v = v
  suspend_requests-IsBalanced env pid uid active subscribed (h ∷ hs) s v =
      elim (Option-cases (find s h)) [
        | inl e ↦
            rw (e, suspend_requests)
              (suspend_requests-IsBalanced env pid uid active subscribed hs s v)
        | inr (r, e) ↦
            let is_app = r.uid == uid && r.pid == pid in
            let s' = suspend_request env active subscribed h s in
            rw (e, suspend_requests)
              (suspend_requests-IsBalanced env pid uid active subscribed hs
                (if is_app then s' else s)
                (if-IsBalanced is_app s' s (suspend_request-IsBalanced env active subscribed h s v)
                  v))
      ]

  handle_power_suspend_changed-IsBalanced :
      (env : Env) (s : Service D) (pid uid state foreground : ℤ) (subscribed : Bool)
      → IsBalanced s
      → IsBalanced (handle_power_suspend_changed env s pid uid state foreground subscribed)
  unfolding handle_power_suspend_changed
  handle_power_suspend_changed-IsBalanced env s pid uid state foreground subscribed v =
      let s' =
        suspend_requests env pid uid (state == foreground) subscribed (all_requests s.requests) s in
      let v' =
        suspend_requests-IsBalanced env pid uid (state == foreground) subscribed
          (all_requests s.requests) s v in
      let applied = act-IsBalanced s' apply_requests (λ t. (refl, refl)) v' in
      λ t. ground (arith, v t, applied t)

  change_request-IsBalanced :
      (env : Env) (h : ℕ) (s : Service D) → IsBalanced s → IsBalanced (change_request env h s)
  unfolding change_request
  change_request-IsBalanced env h s v t =
      ground (arith, v t, update_using_permission-IsBalanced env s h v t)

  change_requests-IsBalanced :
      (env : Env) (token : ℕ) (hs : List ℕ) (s : Service D)
      → IsBalanced s
      → IsBalanced (change_requests env token hs s)
  unfolding change_requests
  change_requests-IsBalanced env token [] s v = v
  change_requests-IsBalanced env token (h ∷ hs) s v = elim (Option-cases (find s h)) [
    | inl e ↦ rw (e, change_requests) (change_requests-IsBalanced env token hs s v)
    | inr (r, e) ↦
        let s' = change_request env h s in
        rw (e, change_requests)
          (change_requests-IsBalanced env token hs (if token == r.token_id then s' else s)
            (if-IsBalanced (token == r.token_id) s' s (change_request-IsBalanced env h s v) v))
  ]

  -- One call of a handler, in the environment that holds while it runs. `created` is a request that
  -- StartLocating has just made: no handler has seen it and it uses no permission.
  pub data Step (s : Service D) : Service D → Type 0 where
    created :
        (h : ℕ) (r : Request D)
        → r.is_using_approximately_perm ≡ false
        → Step s (record s { store = (h, r) ∷ s.store })
    started : (env : Env) (h : ℕ) → Step s (handle_start_locating env s h)
    stopped : (env : Env) (callback : ℕ) → Step s (handle_stop_locating env s callback)
    applied : (env : Env) → Step s (handle_request env s)
    suspended :
        (env : Env) (pid uid state foreground : ℤ) (subscribed : Bool)
        → Step s (handle_power_suspend_changed env s pid uid state foreground subscribed)
    permission_changed : (env : Env) (token : ℕ) → Step s (handle_permission_changed env s token)
    removed : (h : ℕ) → Step s (update_request_record s h false)

  Step-IsBalanced : {s s' : Service D} → Step s s' → IsBalanced s → IsBalanced s'
  unfolding handle_permission_changed
  Step-IsBalanced {s} (created h r unused) v t = ground (arith, v t, unused)
  Step-IsBalanced {s} (started env h) v t = handle_start_locating-IsBalanced env s h v t
  Step-IsBalanced {s} (stopped env callback) v t =
      handle_stop_locating-IsBalanced env s callback v t
  Step-IsBalanced {s} (applied env) v t = handle_request-IsBalanced env s v t
  Step-IsBalanced {s} (suspended env pid uid state foreground subscribed) v t =
      handle_power_suspend_changed-IsBalanced env s pid uid state foreground subscribed v t
  Step-IsBalanced {s} (permission_changed env token) v t =
      change_requests-IsBalanced env token (all_requests s.requests) s v t
  Step-IsBalanced {s} (removed h) v t = update_request_record-IsBalanced s h false v t

  -- The service as it starts, for the proxy that stands beside it.
  unfoldable pub new_service : Background → Service D
  new_service b = record {
    store = [];
    requests = ("gps", []) ∷ ("network", []) ∷ ("passive", []) ∷ [];
    receivers = [];
    running_uids = [];
    permission_tokens = [];
    background = b;
    fusion = new_fusion;
    trace = [];
  }

  pub data Reach (b : Background) : Service D → Type 0 where
    initial : Reach b (new_service b)
    stepped : {s s' : Service D} → Reach b s → Step s s' → Reach b s'

  -- In every state the service can reach, and for each token, StartUsingPermission has been called as
  -- often as StopUsingPermission and once more for each request that uses its permission now.
  pub Reach-IsBalanced : {b : Background} {s : Service D} → Reach b s → IsBalanced s
  unfolding new_service
  Reach-IsBalanced initial t = ground arith
  Reach-IsBalanced (stepped r step) t = Step-IsBalanced step (Reach-IsBalanced r) t
