-- ===== src/RequestManager/Start.antt =====
-- What HandleStartLocating adds.
use gitee_oh_base_location.Base.{
  ℕ, List, String, [], ap, arith, false, int_eq, lookup, lookup-update, nat_eq, none, refl, some,
  string_eq, true, ◌&&◌, ◌==◌, ◌||◌, ◌∙◌, ◌∷◌, ◌≡◌, ==→eq, Bool-cases, inl, inr, if◌then◌else◌,
}
use gitee_oh_base_location.Env.{Env}
use gitee_oh_base_location.Request.{Request, get_proxy_name, set_request_config}
use gitee_oh_base_location.Background.{contains}
use gitee_oh_base_location.RequestManager.{
  Service, location_session_start, find, modify, act, update_using_permission, find_same,
  update_same, restore_receiver, set_requesting, restor_request, update_request_record,
  register_permission_callback,
}
use gitee_oh_base_location.RequestManager.Handlers.{
  handle_request, add_new_request, handle_start_locating, handle_stop_locating,
}
use gitee_oh_base_location.RequestManager.Lists.{any_name, has_list, in_list, in_list-inserted}
use gitee_oh_base_location.RequestManager.View.{
  view, view-update_using_permission, view-handle_request,
}
use gitee_oh_base_location.RequestManager.Stop.{
  rest, rest-update_request_record, rest-view, in_list-view, proxies, in_list-handle_stop_locating,
}

module _ {D : Type 0} (env : Env) (s : Service D) (h : ℕ) (r : Request D)
    (found : find s h ≡ some r) where
  -- The service with the request requesting, and its receivers replaced.
  abbrev restored : List (ℕ × List ℕ) → Service D
  restored m = record (modify s h (set_requesting r)) { receivers = m }

  restor_request_new :
      lookup r.callback s.receivers ≡ none
      → restor_request s h ≡ (restored ((r.callback, h ∷ []) ∷ s.receivers), true)
  unfolding restor_request restore_receiver modify
  restor_request_new e = ground (arith, found, e)

  restor_request_second :
      (hs : List ℕ)
      → lookup r.callback s.receivers ≡ some hs
      → find_same (modify s h (set_requesting r)) r.config hs ≡ none
      → restor_request s h ≡ (restored s.receivers, true)
  unfolding restor_request restore_receiver update_same modify
  restor_request_second hs e different = ground (arith, found, e, different)

  find-restored : (m : List (ℕ × List ℕ)) → find (restored m) h ≡ some (set_requesting r)
  unfolding find modify
  find-restored m =
      ground (arith, found, lookup-update h h (set_requesting r) s.store, nat_eq.beq_iff h h)

  requests-restored : (m : List (ℕ × List ℕ)) → (restored m).requests ≡ s.requests
  unfolding modify
  requests-restored m = refl

  -- The service when the permission record of the new request is about to be updated.
  abbrev recorded : List (ℕ × List ℕ) → Service D
  recorded m = update_request_record (register_permission_callback (restored m) r.token_id) h true

  add_new_request-restored :
      (m : List (ℕ × List ℕ))
      → add_new_request env (restored m) h
        ≡ act (update_using_permission env (recorded m) h) (location_session_start h)
  unfolding add_new_request set_requesting
  add_new_request-restored m = rw (find-restored m, add_new_request) refl

  -- The service when HandleRequest is about to be called.
  abbrev started : List (ℕ × List ℕ) → Service D
  started m = act (update_using_permission env (recorded m) h) (location_session_start h)

  view-started : (m : List (ℕ × List ℕ)) (k : ℕ) → view k (started m) ≡ view k (recorded m)
  unfolding act find
  view-started m k = view-update_using_permission env k (recorded m) h

  recorded-in_list :
      (m : List (ℕ × List ℕ)) (n : String) (k : ℕ)
      → in_list (recorded m) n k
        ≡ (in_list s n k || (any_name (get_proxy_name r) n && (has_list s n && h == k)))
  unfolding register_permission_callback modify get_proxy_name set_requesting find
  recorded-in_list m n k =
      in_list-inserted (register_permission_callback (restored m) r.token_id) h (set_requesting r)
        (find-restored m) n k

  module _ (m : List (ℕ × List ℕ)) (e : restor_request s h ≡ (restored m, true)) where
    handle_start_locating_new : handle_start_locating env s h ≡ handle_request env (started m)
    unfolding handle_start_locating
    handle_start_locating_new = rw (e, handle_start_locating, add_new_request-restored m) refl

    started-in_list :
        (n : String) (k : ℕ)
        → in_list (handle_start_locating env s h) n k
          ≡ (in_list s n k || (any_name (get_proxy_name r) n && (has_list s n && h == k)))
    started-in_list n k =
        ap (λ x. in_list x n k) handle_start_locating_new
        ∙ in_list-view k k (started m) (handle_request env (started m)) n
            (view-handle_request env k (started m))
        ∙ in_list-view k k (recorded m) (started m) n (view-started m k)
        ∙ recorded-in_list m n k

    rest-started : (k : ℕ) → rest k (handle_start_locating env s h) ≡ rest k (restored m)
    unfolding register_permission_callback find
    rest-started k =
        ap (rest k) handle_start_locating_new
        ∙ rest-view k (started m) (handle_request env (started m))
            (view-handle_request env k (started m))
        ∙ rest-view k (recorded m) (started m) (view-started m k)
        ∙ rest-update_request_record k (register_permission_callback (restored m) r.token_id) h true

  -- A request whose callback is new: HandleStartLocating puts it into the list of each of its
  -- abilities that has one, changes no other membership, and records it for its callback.
  pub handle_start_locating_new_callback :
      (n : String) (k : ℕ)
      → lookup r.callback s.receivers ≡ none
      → (in_list (handle_start_locating env s h) n k
          ≡ (in_list s n k || (any_name (get_proxy_name r) n && (has_list s n && h == k))))
        × ((handle_start_locating env s h).receivers ≡ (r.callback, h ∷ []) ∷ s.receivers)
  unfolding modify
  handle_start_locating_new_callback n k e =
      let m = (r.callback, h ∷ []) ∷ s.receivers in
      (
        started-in_list m (restor_request_new e) n k,
        ap (λ x. x.0) (rest-started m (restor_request_new e) 0),
      )

  -- A request whose callback has requests already, of which none asks for the same: it is put into
  -- the lists of its abilities too, but it is not recorded for its callback, so that it stays in the
  -- lists when the callback stops.
  pub handle_start_locating_second :
      (env' : Env) (n : String) (j : ℕ) (hs : List ℕ)
      → lookup r.callback s.receivers ≡ some (j ∷ hs)
      → find_same (modify s h (set_requesting r)) r.config (j ∷ hs) ≡ none
      → contains (j ∷ hs) h ≡ false
      → any_name (get_proxy_name r) n ≡ true
      → has_list s n ≡ true
      → (in_list (handle_start_locating env s h) n h ≡ true)
        × (in_list (handle_stop_locating env' (handle_start_locating env s h) r.callback) n h
            ≡ true)
  unfolding modify
  handle_start_locating_second env' n j hs e different absent served has =
      let restored_same = restor_request_second (j ∷ hs) e different in
      let there : in_list (handle_start_locating env s h) n h ≡ true =
        started-in_list s.receivers restored_same n h
        ∙ ground (arith, served, has, nat_eq.beq_iff h h) in
      let receivers =
        ap (λ x. lookup r.callback x.0) (rest-started s.receivers restored_same 0) ∙ e in
      (
        there,
        in_list-handle_stop_locating env' (handle_start_locating env s h) r.callback j hs receivers
              n h
            ∙ ground (arith, there, absent),
      )

  proxies-handle_start_locating :
      (m : List (ℕ × List ℕ))
      → restor_request s h ≡ (restored m, true)
      → proxies (handle_start_locating env s h) h ≡ get_proxy_name r
  unfolding get_proxy_name set_requesting
  proxies-handle_start_locating m e =
      ap (λ x. elim x.1 [ none ↦ [] | some (uid, names) ↦ names ]) (rest-started m e h)
      ∙ rw (find-restored m) refl

  -- A request whose callback is new and which is in no list: if the callback starts and then stops,
  -- each list has the requests that it had before.
  pub handle_stop_locating-handle_start_locating :
      (env' : Env) (n : String) (k : ℕ)
      → lookup r.callback s.receivers ≡ none
      → in_list s n h ≡ false
      → in_list (handle_stop_locating env' (handle_start_locating env s h) r.callback) n k
        ≡ in_list s n k
  unfolding modify
  handle_stop_locating-handle_start_locating env' n k e absent =
      let m = (r.callback, h ∷ []) ∷ s.receivers in
      let same = restor_request_new e in
      let receivers : lookup r.callback (handle_start_locating env s h).receivers ≡ some (h ∷ []) =
        ap (λ x. lookup r.callback x.0) (rest-started m same 0)
        ∙ ground (arith, nat_eq.beq_iff r.callback r.callback) in
      in_list-handle_stop_locating env' (handle_start_locating env s h) r.callback h [] receivers n
        k
      ∙ elim (Bool-cases (h == k)) [
        | inl y ↦
            rw (← ==→eq h k y, proxies-handle_start_locating m same, started-in_list m same n h)
              (ground (arith, absent, nat_eq.beq_iff h h))
        | inr y ↦ ground (arith, y, started-in_list m same n k)
      ]

  restor_request_same :
      (hs : List ℕ) (k : ℕ) (old : Request D)
      → lookup r.callback s.receivers ≡ some hs
      → find_same (modify s h (set_requesting r)) r.config hs ≡ some (k, old)
      → restor_request s h
        ≡ (modify (modify s h (set_requesting r)) k (set_request_config old r.config), false)
  unfolding restor_request restore_receiver update_same modify
  restor_request_same hs k old e same = ground (arith, found, e, same)

  -- A request whose callback has a request that asks for the same: HandleStartLocating leaves all
  -- lists as they are, also where neither of the two is in a list.
  pub handle_start_locating_same :
      (n : String) (j : ℕ) (hs : List ℕ) (k : ℕ) (old : Request D)
      → lookup r.callback s.receivers ≡ some hs
      → find_same (modify s h (set_requesting r)) r.config hs ≡ some (k, old)
      → in_list (handle_start_locating env s h) n j ≡ in_list s n j
  unfolding handle_start_locating modify
  handle_start_locating_same n j hs k old e same =
      let s' = modify (modify s h (set_requesting r)) k (set_request_config old r.config) in
      ap (λ x. in_list (handle_request env (if x.1 then add_new_request env x.0 h else x.0)) n j)
        (restor_request_same hs k old e same)
      ∙ in_list-view j j s' (handle_request env s') n (view-handle_request env j s')
