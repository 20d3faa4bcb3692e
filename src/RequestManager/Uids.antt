-- ===== src/RequestManager/Uids.antt =====
-- `runningUids_` after HandleStopLocating.
use gitee_oh_base_location.Base.{
  ℕ, Bool, List, Option-cases, String, [], any_by, ap, arith, false, inl, inr, int_eq, lookup,
  nat_eq, not, refl, some, string_eq, true, ℤ, ◌&&◌, ◌==◌, ◌∙◌, ◌∷◌, ◌≡◌,
}
use gitee_oh_base_location.Env.{Env}
use gitee_oh_base_location.Request.{Request, get_proxy_name}
use gitee_oh_base_location.RequestManager.{
  Service, find, is_uid_in_processing, update_request_record, unregister_permission_callback,
}
use gitee_oh_base_location.RequestManager.Handlers.{
  handle_request, delete_request_record, unregister_all, handle_stop_locating,
  handle_power_suspend_changed,
}
use gitee_oh_base_location.RequestManager.Lists.{in_list, is_uid_in_processing-removed}
use gitee_oh_base_location.RequestManager.View.{view, view-handle_request}
use gitee_oh_base_location.RequestManager.Stop.{
  deleted, view-deleted, kept-unregister_all, erased, erased-in_list, handle_stop_locating_found,
  in_list-handle_stop_locating,
}

any_by-cong :
    (p q : String → Bool) (names : List String)
    → ((n : String) → p n ≡ q n)
    → any_by p names ≡ any_by q names
any_by-cong p q [] same = refl
any_by-cong p q (n ∷ names) same = ground (arith, same n, any_by-cong p q names same)

module _ {D : Type 0} where
  find-unregister_all :
      (hs : List ℕ) (s : Service D) (k : ℕ) → find (unregister_all hs s) k ≡ find s k
  unfolding unregister_all unregister_permission_callback find
  find-unregister_all [] s k = refl
  find-unregister_all (h ∷ hs) s k = elim (Option-cases (find s h)) [
    | inl e ↦ rw (e, unregister_all) (find-unregister_all hs s k)
    | inr (r, e) ↦
        rw (e, unregister_all)
          (find-unregister_all hs (unregister_permission_callback s r.token_id) k)
  ]

  uids-view :
      (s s' : Service D) (u : ℤ)
      → view 0 s' ≡ view 0 s
      → is_uid_in_processing s' u ≡ is_uid_in_processing s u
  unfolding is_uid_in_processing
  uids-view s s' u e = ap (λ v. any_by (λ i. i == u) (v.0).2) e

  delete_request_record_one :
      (env : Env) (h : ℕ) (s : Service D) → delete_request_record env (h ∷ []) s ≡ deleted env s h
  unfolding delete_request_record
  delete_request_record_one env h s = refl

  module _ (env : Env) (s : Service D) (callback h : ℕ) (r : Request D)
      (e : lookup callback s.receivers ≡ some (h ∷ [])) (found : find s h ≡ some r) where
    -- When the only request of a callback stops, its uid is running no more if the request was in
    -- the list of one of its abilities; any other uid is running exactly if it was.
    pub is_uid_in_processing-handle_stop_locating :
        (u : ℤ)
        → is_uid_in_processing (handle_stop_locating env s callback) u ≡ (
            is_uid_in_processing s u
            && not (r.uid == u && any_by (λ p. in_list s p h) (get_proxy_name r)))
    unfolding is_uid_in_processing find
    is_uid_in_processing-handle_stop_locating u =
        let s' = erased env s callback h [] e in
        let one = deleted env s' h in
        let known' = find-unregister_all (h ∷ []) s h ∙ found in
        let same_lists =
          any_by-cong (λ p. in_list s' p h) (λ p. in_list s p h) (get_proxy_name r)
            (λ n. erased-in_list env s callback h [] e n h) in
        ap (λ x. is_uid_in_processing x u) (handle_stop_locating_found env s callback h [] e)
        ∙ uids-view (delete_request_record env (h ∷ []) s')
            (handle_request env (delete_request_record env (h ∷ []) s')) u
            (view-handle_request env 0 (delete_request_record env (h ∷ []) s'))
        ∙ ap (λ x. is_uid_in_processing x u) (delete_request_record_one env h s')
        ∙ uids-view (update_request_record s' h false) one u (view-deleted env 0 s' h)
        ∙ is_uid_in_processing-removed s' h r known' u
        ∙ ap (λ x. any_by (λ i. i == u) s'.running_uids && not (r.uid == u && x)) same_lists
        ∙ ap
            (λ v.
              any_by (λ i. i == u) v.1.0
              && not (r.uid == u && any_by (λ p. in_list s p h) (get_proxy_name r)))
            (kept-unregister_all 0 (h ∷ []) s)

  ignored :
      (env : Env) (s : Service D) (pid uid state foreground : ℤ) (subscribed : Bool)
      → is_uid_in_processing s uid ≡ false
      → handle_power_suspend_changed env s pid uid state foreground subscribed ≡ s
  unfolding handle_power_suspend_changed
  ignored env s pid uid state foreground subscribed e = ground (arith, e)

  -- An app has two requests with callbacks of their own, both in the lists of abilities, and one of
  -- them stops. The other is still in its list, but when the app is frozen or wakes up then,
  -- HandlePowerSuspendChanged does nothing.
  pub handle_stop_locating_same_uid :
      (env env' : Env) (s : Service D) (callback h k : ℕ) (r : Request D) (n : String)
      (pid state foreground : ℤ) (subscribed : Bool)
      → lookup callback s.receivers ≡ some (h ∷ [])
      → find s h ≡ some r
      → any_by (λ p. in_list s p h) (get_proxy_name r) ≡ true
      → (h == k) ≡ false
      → in_list s n k ≡ true
      → (in_list (handle_stop_locating env s callback) n k ≡ true)
        × (handle_power_suspend_changed env'
              (handle_stop_locating env s callback)
              pid
              r.uid
              state
              foreground
              subscribed
            ≡ handle_stop_locating env s callback)
  handle_stop_locating_same_uid env env' s callback h k r n pid state foreground subscribed e found
        listed other in_n =
      (
        ground (arith, in_list-handle_stop_locating env s callback h [] e n k, other, in_n),
        ignored env' (handle_stop_locating env s callback) pid r.uid state foreground subscribed (
            ground (
              arith,
              is_uid_in_processing-handle_stop_locating env s callback h r e found r.uid,
              listed,
              int_eq.beq_iff r.uid r.uid,
            )),
      )
