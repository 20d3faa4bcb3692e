-- ===== src/RequestManager/BalanceKept.antt =====
-- What recording and sending requests does to the balance of the permissions in use.
use gitee_oh_base_location.Base.{
  ℕ, Bool, List, Option-cases, String, [], arith, inl, inr, none, some, ℤ, ◌∷◌, Option, false,
  if◌then◌else◌, int_eq, lookup, nat_eq, refl, string_eq, true, ◌==◌, ◌||◌,
}
use gitee_oh_base_location.Env.{Env}
use gitee_oh_base_location.Common.{
  ability_convert_to_id, gnss_ability, network_ability, passive_ability,
}
use gitee_oh_base_location.Location.{RequestConfig}
use gitee_oh_base_location.Request.{Request, set_request_config, get_proxy_name}
use gitee_oh_base_location.Fusion.{process}
use gitee_oh_base_location.WorkRecord.{WorkRecord, new_record, set_device_id}
use gitee_oh_base_location.RequestManager.{
  Service, send_location_request, request_quick_fix, find, modify, act, find_same, update_same,
  restore_receiver, set_requesting, restor_request, update_ability_record, update_ability_records,
  update_request_record,
}
use gitee_oh_base_location.RequestManager.Handlers.{
  process_fusion, send_to_ability, add_request_to_work_record, active_locating_strategies,
  add_requests, quick_fix, proxy_send_location_request, handle_ability_request, handle_abilities,
  handle_request,
}
use gitee_oh_base_location.RequestManager.Balance.{
  IsBalanced, modify-IsBalanced, update_using_permission-IsBalanced, act-IsBalanced, find_same-find,
}

module _ {D : Type 0} where
  update_same-IsBalanced :
      (s : Service D) (config : RequestConfig D) (hs : List ℕ)
      → IsBalanced s
      → IsBalanced (update_same s config hs).0
  unfolding update_same set_request_config
  update_same-IsBalanced s config hs v = elim (Option-cases (find_same s config hs)) [
    | inl e ↦ rw (e, update_same) v
    | inr ((k, old), e) ↦
        let found = find_same-find s config hs k old e in
        rw (e, update_same)
          (modify-IsBalanced s k old (set_request_config old config) found refl refl v)
  ]

  restore_receiver-IsBalanced :
      (s : Service D) (h : ℕ) (r : Request D) → IsBalanced s → IsBalanced (restore_receiver s h r).0
  unfolding restore_receiver
  restore_receiver-IsBalanced s h r v = elim (Option-cases (lookup r.callback s.receivers)) [
    | inl e ↦ rw (e, restore_receiver) v
    | inr (hs, e) ↦ rw (e, restore_receiver) (update_same-IsBalanced s r.config hs v)
  ]

  pub restor_request-IsBalanced :
      (s : Service D) (h : ℕ) → IsBalanced s → IsBalanced (restor_request s h).0
  unfolding restor_request set_requesting
  restor_request-IsBalanced s h v = elim (Option-cases (find s h)) [
    | inl e ↦ rw (e, restor_request) v
    | inr (r, e) ↦
        rw (e, restor_request)
          (restore_receiver-IsBalanced (modify s h (set_requesting r)) h r
            (modify-IsBalanced s h r (set_requesting r) e refl refl v))
  ]

  update_ability_record-IsBalanced :
      (s : Service D) (h : ℕ) (uid : ℤ) (should_insert : Bool) (name : String)
      → IsBalanced s
      → IsBalanced (update_ability_record s h uid should_insert name)
  unfolding update_ability_record
  update_ability_record-IsBalanced s h uid should_insert name v t = ground (arith, v t)

  update_ability_records-IsBalanced :
      (h : ℕ) (uid : ℤ) (should_insert : Bool) (names : List String) (s : Service D)
      → IsBalanced s
      → IsBalanced (update_ability_records h uid should_insert names s)
  unfolding update_ability_records
  update_ability_records-IsBalanced h uid should_insert [] s v = v
  update_ability_records-IsBalanced h uid should_insert (name ∷ names) s v =
      update_ability_records-IsBalanced h uid should_insert names
        (update_ability_record s h uid should_insert name)
        (update_ability_record-IsBalanced s h uid should_insert name v)

  pub update_request_record-IsBalanced :
      (s : Service D) (h : ℕ) (should_insert : Bool)
      → IsBalanced s
      → IsBalanced (update_request_record s h should_insert)
  unfolding update_request_record
  update_request_record-IsBalanced s h should_insert v = elim (Option-cases (find s h)) [
    | inl e ↦ rw (e, update_request_record) v
    | inr (r, e) ↦
        rw (e, update_request_record)
          (update_ability_records-IsBalanced h r.uid should_insert (get_proxy_name r) s v)
  ]

  active_locating_strategies-IsBalanced :
      (s : Service D) (h : ℕ) → IsBalanced s → IsBalanced (active_locating_strategies s h)
  unfolding active_locating_strategies
  active_locating_strategies-IsBalanced s h v t = ground (arith, v t)

  add_request_to_work_record-IsBalanced :
      (env : Env) (s : Service D) (h : ℕ) (w : WorkRecord)
      → IsBalanced s
      → IsBalanced (add_request_to_work_record env s h w).0
  unfolding add_request_to_work_record
  add_request_to_work_record-IsBalanced env s h w v t =
      ground (arith, update_using_permission-IsBalanced env s h v t)

  pub if-IsBalanced :
      (c : Bool) (s s' : Service D)
      → IsBalanced s
      → IsBalanced s'
      → IsBalanced (if c then s else s')
  if-IsBalanced true s s' v v' = v
  if-IsBalanced false s s' v v' = v'

  add_requests-IsBalanced :
      (env : Env) (hs : List ℕ) (s : Service D) (w : WorkRecord)
      → IsBalanced s
      → IsBalanced (add_requests env hs s w).0
  unfolding add_requests
  add_requests-IsBalanced env [] s w v = v
  add_requests-IsBalanced env (h ∷ hs) s w v =
      let (s', (w', added)) = add_request_to_work_record env s h w in
      let v' = add_request_to_work_record-IsBalanced env s h w v in
      add_requests-IsBalanced env hs (if added then active_locating_strategies s' h else s') w' (
        if-IsBalanced added (active_locating_strategies s' h) s'
          (active_locating_strategies-IsBalanced s' h v') v')

  quick_fix-IsBalanced :
      (s : Service D) (state : Option Bool) → IsBalanced s → IsBalanced (quick_fix s state)
  unfolding quick_fix
  quick_fix-IsBalanced s none v = v
  quick_fix-IsBalanced s (some state) v =
      act-IsBalanced s (request_quick_fix state) (λ t. (refl, refl)) v

  process_fusion-IsBalanced :
      (s : Service D) (name : String) → IsBalanced s → IsBalanced (process_fusion s name)
  unfolding process_fusion
  process_fusion-IsBalanced s name v =
      let (fusion', state) = process s.fusion name in
      quick_fix-IsBalanced (record s { fusion = fusion' }) state v

  send_to_ability-IsBalanced :
      (s : Service D) (name : String) (w : WorkRecord)
      → IsBalanced s
      → IsBalanced (send_to_ability s name w)
  unfolding send_to_ability
  send_to_ability-IsBalanced s name w v =
      if-IsBalanced (name == gnss_ability || (name == network_ability || name == passive_ability))
        (act s (send_location_request name (set_device_id w ""))) s
        (act-IsBalanced s (send_location_request name (set_device_id w "")) (λ t. (refl, refl)) v) v

  proxy_send_location_request-IsBalanced :
      (env : Env) (s : Service D) (name : String) (w : WorkRecord)
      → IsBalanced s
      → IsBalanced (proxy_send_location_request env s name w)
  unfolding proxy_send_location_request
  proxy_send_location_request-IsBalanced env s name w v =
      elim (Option-cases (ability_convert_to_id name)) [
        | inl e ↦ rw (e, proxy_send_location_request) v
        | inr (sa, e) ↦
            let sent = process_fusion (send_to_ability s name w) name in
            let v' =
              process_fusion-IsBalanced (send_to_ability s name w) name
                (send_to_ability-IsBalanced s name w v) in
            rw (e, proxy_send_location_request) (if-IsBalanced (env.remote sa) sent s v' v)
      ]

  handle_abilities-IsBalanced :
      (env : Env) (m : List (String × List ℕ)) (s : Service D)
      → IsBalanced s
      → IsBalanced (handle_abilities env m s)
  unfolding handle_abilities handle_ability_request
  handle_abilities-IsBalanced env [] s v = v
  handle_abilities-IsBalanced env ((name, hs) ∷ m) s v =
      let (s', w) = add_requests env hs s new_record in
      handle_abilities-IsBalanced env m (proxy_send_location_request env s' name w) (
        proxy_send_location_request-IsBalanced env s' name w
          (add_requests-IsBalanced env hs s new_record v))

  pub handle_request-IsBalanced :
      (env : Env) (s : Service D) → IsBalanced s → IsBalanced (handle_request env s)
  unfolding handle_request
  handle_request-IsBalanced env s v = handle_abilities-IsBalanced env s.requests s v
