-- ===== src/RequestManager/View.antt =====
-- What HandleRequest and the permission records leave as it is.
use gitee_oh_base_location.Base.{
  ℕ, List, Option, Option-cases, String, ap, arith, inl, inr, nat_eq, none, some, ℤ, ◌≡◌, Bool,
  Bool-cases, [], false, int_eq, refl, string_eq, true, ◌==◌, ◌||◌, ◌∙◌, ◌∷◌,
}
use gitee_oh_base_location.Common.{
  access_approximately_location, ability_convert_to_id, gnss_ability, network_ability,
  passive_ability,
}
use gitee_oh_base_location.RequestManager.Work.{added_service, service-add_request_to_work_record}
use gitee_oh_base_location.Env.{Env}
use gitee_oh_base_location.Request.{Request, get_proxy_name}
use gitee_oh_base_location.Fusion.{process}
use gitee_oh_base_location.WorkRecord.{WorkRecord, new_record}
use gitee_oh_base_location.RequestManager.{
  Service, find, act, modify, use_permission, update_using_permission,
}
use gitee_oh_base_location.RequestManager.Handlers.{
  add_request_to_work_record, active_locating_strategies, add_requests, quick_fix, process_fusion,
  send_to_ability, proxy_send_location_request, handle_ability_request, handle_abilities,
  handle_request,
}
use gitee_oh_base_location.RequestManager.Permission.{
  flagged, granted, find-update_using_permission, update_using_permission_found,
  update_using_permission_missing,
}

abbrev pub Frame : Type 0
Frame = List (String × List ℕ) × List (ℕ × List ℕ) × List ℤ × List ℕ

module _ {D : Type 0} where
  -- The uid and the abilities of a request.
  abbrev pub known : Service D → ℕ → Option (ℤ × List String)
  known s k = elim (find s k) [ none ↦ none | some r ↦ some (r.uid, get_proxy_name r) ]

  abbrev pub frame : Service D → Frame
  frame s = (s.requests, s.receivers, s.running_uids, s.permission_tokens)

  abbrev pub view : ℕ → Service D → Frame × Option (ℤ × List String)
  view k s = (frame s, known s k)

  known-update_using_permission :
      (env : Env) (s : Service D) (h k : ℕ) → known (update_using_permission env s h) k ≡ known s k
  unfolding get_proxy_name
  known-update_using_permission env s h k = elim (Option-cases (find s h)) [
    | inl e ↦ ap (λ x. known x k) (update_using_permission_missing env s h e)
    | inr (r, e) ↦ ground (arith, e, find-update_using_permission env s h k r e, nat_eq.beq_iff h k)
  ]

  frame-use_permission :
      (s : Service D) (h token : ℕ) (name : String) (flag used : Bool) (r : Request D)
      → frame (use_permission s h token name flag used r) ≡ frame s
  unfolding use_permission act modify
  frame-use_permission s h token name true true r = refl
  frame-use_permission s h token name true false r = refl
  frame-use_permission s h token name false true r = refl
  frame-use_permission s h token name false false r = refl

  frame-update_using_permission :
      (env : Env) (s : Service D) (h : ℕ) → frame (update_using_permission env s h) ≡ frame s
  frame-update_using_permission env s h = elim (Option-cases (find s h)) [
    | inl e ↦ ap frame (update_using_permission_missing env s h e)
    | inr (r, e) ↦
        ap frame (update_using_permission_found env s h r e)
        ∙ frame-use_permission s h r.token_id access_approximately_location (granted env s r)
            r.is_using_approximately_perm (flagged r (granted env s r))
  ]

  pub view-update_using_permission :
      (env : Env) (k : ℕ) (s : Service D) (h : ℕ)
      → view k (update_using_permission env s h) ≡ view k s
  view-update_using_permission env k s h =
      ap (λ x. (x, known (update_using_permission env s h) k))
        (frame-update_using_permission env s h)
      ∙ ap (λ x. (frame s, x)) (known-update_using_permission env s h k)

  view-active_locating_strategies :
      (k : ℕ) (s : Service D) (h : ℕ) → view k (active_locating_strategies s h) ≡ view k s
  unfolding active_locating_strategies find
  view-active_locating_strategies k s h = elim (Option-cases (find s h)) [
    | inl e ↦ rw (e, active_locating_strategies) refl
    | inr (r, e) ↦ rw (e, active_locating_strategies) refl
  ]

  view-added_service :
      (env : Env) (k : ℕ) (s : Service D) (h : ℕ) (w : WorkRecord)
      → view k (added_service env s h w) ≡ view k s
  view-added_service env k s h w =
      let s' = update_using_permission env s h in
      rw (service-add_request_to_work_record env s h w)
        (elim (Bool-cases (add_request_to_work_record env s h w).1.1) [
          | inl e ↦
              rw e (view-active_locating_strategies k s' h ∙ view-update_using_permission env k s h)
          | inr e ↦ rw e (view-update_using_permission env k s h)
        ])

  view-add_requests :
      (env : Env) (k : ℕ) (hs : List ℕ) (s : Service D) (w : WorkRecord)
      → view k (add_requests env hs s w).0 ≡ view k s
  unfolding add_requests
  view-add_requests env k [] s w = refl
  view-add_requests env k (h ∷ hs) s w =
      view-add_requests env k hs (added_service env s h w)
        (add_request_to_work_record env s h w).1.0
      ∙ view-added_service env k s h w

  view-quick_fix :
      (k : ℕ) (s : Service D) (state : Option Bool) → view k (quick_fix s state) ≡ view k s
  unfolding quick_fix act find
  view-quick_fix k s none = refl
  view-quick_fix k s (some state) = refl

  view-process_fusion :
      (k : ℕ) (s : Service D) (name : String) → view k (process_fusion s name) ≡ view k s
  unfolding process_fusion find
  view-process_fusion k s name =
      let (fusion', state) = process s.fusion name in
      view-quick_fix k (record s { fusion = fusion' }) state

  view-send_to_ability :
      (k : ℕ) (s : Service D) (name : String) (w : WorkRecord)
      → view k (send_to_ability s name w) ≡ view k s
  unfolding send_to_ability act find
  view-send_to_ability k s name w =
      elim (Bool-cases
        (name == gnss_ability || (name == network_ability || name == passive_ability))) [
          | inl e ↦ rw (e, send_to_ability) refl
          | inr e ↦ rw (e, send_to_ability) refl
        ]

  view-proxy_send_location_request :
      (env : Env) (k : ℕ) (s : Service D) (name : String) (w : WorkRecord)
      → view k (proxy_send_location_request env s name w) ≡ view k s
  unfolding proxy_send_location_request find
  view-proxy_send_location_request env k s name w =
      elim (Option-cases (ability_convert_to_id name)) [
        | inl e ↦ rw (e, proxy_send_location_request) refl
        | inr (sa, e) ↦ elim (Bool-cases (env.remote sa)) [
          | inl y ↦
              rw (e, proxy_send_location_request, y)
                (view-process_fusion k (send_to_ability s name w) name
                  ∙ view-send_to_ability k s name w)
          | inr n ↦ rw (e, proxy_send_location_request, n) refl
        ]
      ]

  view-handle_abilities :
      (env : Env) (k : ℕ) (m : List (String × List ℕ)) (s : Service D)
      → view k (handle_abilities env m s) ≡ view k s
  unfolding handle_abilities handle_ability_request
  view-handle_abilities env k [] s = refl
  view-handle_abilities env k ((name, hs) ∷ m) s =
      let (s', w) = add_requests env hs s new_record in
      view-handle_abilities env k m (proxy_send_location_request env s' name w)
      ∙ view-proxy_send_location_request env k s' name w
      ∙ view-add_requests env k hs s new_record

  -- HandleRequest changes none of the maps, the running uids and the registered tokens, and no
  -- request's uid and abilities.
  pub view-handle_request :
      (env : Env) (k : ℕ) (s : Service D) → view k (handle_request env s) ≡ view k s
  unfolding handle_request
  view-handle_request env k s = view-handle_abilities env k s.requests s
