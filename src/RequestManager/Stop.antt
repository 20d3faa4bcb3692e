-- ===== src/RequestManager/Stop.antt =====
-- What HandleStopLocating leaves.
use gitee_oh_base_location.Base.{
  ℕ, ==→eq, Bool, Bool-cases, List, Option, Option-cases, String, [], ap, arith, false, inl, inr,
  int_eq, lookup, nat_eq, none, not, refl, some, string_eq, ℤ, ◌&&◌, ◌==◌, ◌∙◌, ◌∷◌, ◌≡◌, erase,
  lookup-erase,
}
use gitee_oh_base_location.Env.{Env}
use gitee_oh_base_location.Request.{get_proxy_name}
use gitee_oh_base_location.Background.{contains, on_delete_request_record}
use gitee_oh_base_location.RequestManager.{
  Service, find, update_using_permission, update_ability_record, update_ability_records,
  update_request_record, unregister_permission_callback,
}
use gitee_oh_base_location.RequestManager.Handlers.{
  handle_request, delete_request_record, unregister_all, handle_stop_locating,
}
use gitee_oh_base_location.RequestManager.Lists.{any_name, in_list, in_list-removed}
use gitee_oh_base_location.RequestManager.View.{
  known, view, view-update_using_permission, view-handle_request,
}

module _ {D : Type 0} where
  update_request_record_missing :
      (s : Service D) (h : ℕ) (should_insert : Bool)
      → find s h ≡ none
      → update_request_record s h should_insert ≡ s
  unfolding update_request_record
  update_request_record_missing s h should_insert e = ground (arith, e)

  -- The part of the service that is neither a list nor a uid.
  abbrev pub rest : ℕ → Service D → List (ℕ × List ℕ) × Option (ℤ × List String)
  rest k s = (s.receivers, known s k)

  rest-update_ability_record :
      (k : ℕ) (s : Service D) (h : ℕ) (uid : ℤ) (should_insert : Bool) (name : String)
      → rest k (update_ability_record s h uid should_insert name) ≡ rest k s
  unfolding update_ability_record find
  rest-update_ability_record k s h uid should_insert name =
      elim (Option-cases (lookup name s.requests)) [
        | inl e ↦ rw (e, update_ability_record) refl
        | inr (hs, e) ↦ elim (Bool-cases should_insert) [
          | inl b ↦ rw (e, update_ability_record, b) refl
          | inr b ↦ rw (e, update_ability_record, b) refl
        ]
      ]

  rest-update_ability_records :
      (k h : ℕ) (uid : ℤ) (should_insert : Bool) (names : List String) (s : Service D)
      → rest k (update_ability_records h uid should_insert names s) ≡ rest k s
  unfolding update_ability_records
  rest-update_ability_records k h uid should_insert [] s = refl
  rest-update_ability_records k h uid should_insert (name ∷ names) s =
      rest-update_ability_records k h uid should_insert names
        (update_ability_record s h uid should_insert name)
      ∙ rest-update_ability_record k s h uid should_insert name

  pub rest-update_request_record :
      (k : ℕ) (s : Service D) (h : ℕ) (should_insert : Bool)
      → rest k (update_request_record s h should_insert) ≡ rest k s
  unfolding update_request_record
  rest-update_request_record k s h should_insert = elim (Option-cases (find s h)) [
    | inl e ↦ rw (e, update_request_record) refl
    | inr (r, e) ↦
        rw (e, update_request_record)
          (rest-update_ability_records k h r.uid should_insert (get_proxy_name r) s)
  ]

  -- The abilities of a request, by its number.
  abbrev pub proxies : Service D → ℕ → List String
  proxies s k = elim (known s k) [ none ↦ [] | some (uid, names) ↦ names ]

  removed-in_list :
      (s : Service D) (h : ℕ) (n : String) (k : ℕ)
      → in_list (update_request_record s h false) n k
        ≡ (in_list s n k && not (h == k && any_name (proxies s k) n))
  removed-in_list s h n k = elim (Option-cases (find s h)) [
    | inl e ↦ rw (update_request_record_missing s h false e) (elim (Bool-cases (h == k)) [
      | inl y ↦ rw (← ==→eq h k y) (ground (arith, e, nat_eq.beq_iff h h))
      | inr y ↦ ground (arith, y)
    ])
    | inr (r, e) ↦ in_list-removed s h r e n k ∙ elim (Bool-cases (h == k)) [
      | inl y ↦ rw (← ==→eq h k y) (ground (arith, e, nat_eq.beq_iff h h))
      | inr y ↦ ground (arith, y)
    ]
  ]

  -- One round of the loop of DeleteRequestRecord.
  abbrev pub deleted : Env → Service D → ℕ → Service D
  deleted env s h =
      let s' = update_using_permission env (update_request_record s h false) h in
      record s' { background = on_delete_request_record s'.background h }

  pub view-deleted :
      (env : Env) (k : ℕ) (s : Service D) (h : ℕ)
      → view k (deleted env s h) ≡ view k (update_request_record s h false)
  unfolding find
  view-deleted env k s h = view-update_using_permission env k (update_request_record s h false) h

  -- What `view` and `rest` determine.
  pub in_list-view :
      (k j : ℕ) (s s' : Service D) (n : String)
      → view j s' ≡ view j s
      → in_list s' n k ≡ in_list s n k
  in_list-view k j s s' n e =
      ap (λ v. elim (lookup n (v.0).0) [ none ↦ false | some hs ↦ contains hs k ]) e

  pub rest-view : (k : ℕ) (s s' : Service D) → view k s' ≡ view k s → rest k s' ≡ rest k s
  rest-view k s s' e = ap (λ v. ((v.0).1, v.1)) e

  rest-deleted : (env : Env) (k : ℕ) (s : Service D) (h : ℕ) → rest k (deleted env s h) ≡ rest k s
  rest-deleted env k s h =
      rest-view k (update_request_record s h false) (deleted env s h) (view-deleted env k s h)
      ∙ rest-update_request_record k s h false

  rest-delete_request_record :
      (env : Env) (k : ℕ) (hs : List ℕ) (s : Service D)
      → rest k (delete_request_record env hs s) ≡ rest k s
  unfolding delete_request_record
  rest-delete_request_record env k [] s = refl
  rest-delete_request_record env k (h ∷ hs) s =
      rest-delete_request_record env k hs (deleted env s h) ∙ rest-deleted env k s h

  deleted-in_list :
      (env : Env) (hs : List ℕ) (s : Service D) (n : String) (k : ℕ)
      → in_list (delete_request_record env hs s) n k
        ≡ (in_list s n k && not (contains hs k && any_name (proxies s k) n))
  unfolding delete_request_record
  deleted-in_list env [] s n k = ground arith
  deleted-in_list env (h ∷ hs) s n k =
      let s' = deleted env s h in
      let same = ap (λ x. x.1) (rest-deleted env k s h) in
      deleted-in_list env hs s' n k
      ∙ ap
          (λ x.
            in_list s' n k
            && not (contains hs k && any_name (elim x [ none ↦ [] | some (uid, names) ↦ names ]) n))
          same
      ∙ ground (
        arith,
        in_list-view k k (update_request_record s h false) s' n (view-deleted env k s h),
        removed-in_list s h n k,
      )

  -- UnregisterPermissionCallback touches the registered tokens only.
  abbrev pub kept :
      ℕ
      → Service D
      → List (String × List ℕ) × (List ℤ × (List (ℕ × List ℕ) × Option (ℤ × List String)))
  kept k s = (s.requests, (s.running_uids, rest k s))

  pub kept-unregister_all :
      (k : ℕ) (hs : List ℕ) (s : Service D) → kept k (unregister_all hs s) ≡ kept k s
  unfolding unregister_all unregister_permission_callback find
  kept-unregister_all k [] s = refl
  kept-unregister_all k (h ∷ hs) s = elim (Option-cases (find s h)) [
    | inl e ↦ rw (e, unregister_all) (kept-unregister_all k hs s)
    | inr (r, e) ↦
        rw (e, unregister_all)
          (kept-unregister_all k hs (unregister_permission_callback s r.token_id))
  ]

  module _ (env : Env) (s : Service D) (callback h : ℕ) (hs : List ℕ)
      (e : lookup callback s.receivers ≡ some (h ∷ hs)) where
    -- The service when the requests are about to be deleted.
    abbrev pub erased : Service D
    erased =
        let s' = unregister_all (h ∷ hs) s in record s' { receivers = erase callback s'.receivers }

    pub handle_stop_locating_found :
        handle_stop_locating env s callback
        ≡ handle_request env (delete_request_record env (h ∷ hs) erased)
    unfolding handle_stop_locating
    handle_stop_locating_found = rw (e, handle_stop_locating) refl

    pub erased-in_list : (n : String) (k : ℕ) → in_list erased n k ≡ in_list s n k
    erased-in_list n k =
        ap (λ v. elim (lookup n v.0) [ none ↦ false | some js ↦ contains js k ])
          (kept-unregister_all k (h ∷ hs) s)

    erased-known : (k : ℕ) → known erased k ≡ known s k
    unfolding find
    erased-known k = ap (λ v. v.1.1.1) (kept-unregister_all k (h ∷ hs) s)

    -- HandleStopLocating, for a callback that has requests: they leave the lists of their abilities,
    -- and no other request leaves a list.
    pub in_list-handle_stop_locating :
        (n : String) (k : ℕ)
        → in_list (handle_stop_locating env s callback) n k
          ≡ (in_list s n k && not (contains (h ∷ hs) k && any_name (proxies s k) n))
    in_list-handle_stop_locating n k =
        let deleted_all = delete_request_record env (h ∷ hs) erased in
        ap (λ x. in_list x n k) handle_stop_locating_found
        ∙ in_list-view k k deleted_all (handle_request env deleted_all) n
            (view-handle_request env k deleted_all)
        ∙ deleted-in_list env (h ∷ hs) erased n k
        ∙ ap
            (λ x.
              in_list erased n k
              && not (
                  contains (h ∷ hs) k
                  && any_name (elim x [ none ↦ [] | some (uid, names) ↦ names ]) n))
            (erased-known k)
        ∙ ap (λ x. x && not (contains (h ∷ hs) k && any_name (proxies s k) n)) (erased-in_list n k)

    -- The callback has no requests any more; those of the other callbacks are as they were.
    pub receivers-handle_stop_locating :
        (handle_stop_locating env s callback).receivers ≡ erase callback s.receivers
    receivers-handle_stop_locating =
        let deleted_all = delete_request_record env (h ∷ hs) erased in
        ap (λ x. x.receivers) handle_stop_locating_found
        ∙ ap (λ v. v.0)
            (rest-view 0 deleted_all (handle_request env deleted_all)
              (view-handle_request env 0 deleted_all))
        ∙ ap (λ v. v.0) (rest-delete_request_record env 0 (h ∷ hs) erased)
        ∙ ap (λ v. erase callback v.1.1.0) (kept-unregister_all 0 (h ∷ hs) s)

  stopped_again :
      (env : Env) (s : Service D) (callback : ℕ)
      → lookup callback s.receivers ≡ none
      → handle_stop_locating env s callback ≡ s
  unfolding handle_stop_locating
  stopped_again env s callback e = rw (e, handle_stop_locating) refl

  -- Stopping a callback that has requests a second time changes nothing.
  pub handle_stop_locating_again :
      (env env' : Env) (s : Service D) (callback h : ℕ) (hs : List ℕ)
      → lookup callback s.receivers ≡ some (h ∷ hs)
      → handle_stop_locating env' (handle_stop_locating env s callback) callback
        ≡ handle_stop_locating env s callback
  handle_stop_locating_again env env' s callback h hs e =
      stopped_again env' (handle_stop_locating env s callback) callback (
        ap (lookup callback) (receivers-handle_stop_locating env s callback h hs e)
        ∙ ground
            (arith, lookup-erase callback callback s.receivers, nat_eq.beq_iff callback callback))
