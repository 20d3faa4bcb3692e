-- ===== src/Background/Limit.antt =====
-- The limit on the requests of an app that the proxy takes over.
use gitee_oh_base_location.Base.{
  ℕ, Bool, Bool-cases, Option, [], arith, false, inl, inr, int_eq, lookup, nat_eq, refl, some,
  string_eq, subst, sym, ℤ, ◌&&◌, ◌==◌, ◌≡◌, ◌⊎◌, List, Option-cases, ap, none, update, ◌++◌, ◌||◌,
  ◌∙◌, true, lookup-update,
}
use gitee_oh_base_location.Env.{Env}
use gitee_oh_base_location.Request.{Request}
use gitee_oh_base_location.Background.{
  Background, new_background, list_of, app_requests, start_locator, stop_locator, start_or_stop,
  start_locked, stop_locked, on_sa_state_change, on_delete_request_record, on_user_switch,
  update_list_on_user_switch, on_user_remove, on_suspend, update_list_on_suspend, suspended_list,
  contains,
}
use gitee_oh_base_location.Background.Suspend.{
  IsWithinLimit, remove_all-IsWithinLimit, suspended_list-IsWithinLimit,
}
use gitee_oh_base_location.Background.Users.{list_of-on_delete_request_record}
use gitee_oh_base_location.Background.Events.{
  Step, Reach, switched, deleted, user_switched, user_removed, suspended, started, stopped, created,
  stepped,
}

list_of-lists :
    (b b' : Background) (list : ℕ) → b'.lists ≡ b.lists → list_of b' list ≡ list_of b list
unfolding list_of
list_of-lists b b' list e = rw e refl

lists-start_or_stop : (b : Background) → (start_or_stop b).lists ≡ b.lists
unfolding start_or_stop start_locator stop_locator
lists-start_or_stop b = ground arith

lists-on_sa_state_change :
    (b : Background) (enable : Bool) → (on_sa_state_change b enable).lists ≡ b.lists
unfolding on_sa_state_change start_locator stop_locator
lists-on_sa_state_change b enable = ground arith

lists-start_locked : (b : Background) → (start_locked b).0.lists ≡ b.lists
unfolding start_locked
lists-start_locked b = ground arith

lists-stop_locked : (b : Background) → (stop_locked b).0.lists ≡ b.lists
unfolding stop_locked
lists-stop_locked b = ground arith

on_delete_request_record_off :
    (b : Background) (h : ℕ) → b.feature_switch ≡ false → on_delete_request_record b h ≡ b
unfolding on_delete_request_record
on_delete_request_record_off b h f = rw f refl

module _ {D : Type 0} (find : ℕ → Option (Request D)) where
  -- No list of the store has more requests of one app than the limit.
  abbrev pub IsLimited : Background → Type 0
  IsLimited b = (list : ℕ) → IsWithinLimit find (list_of b list)

  lists-IsLimited : (b b' : Background) → b'.lists ≡ b.lists → IsLimited b → IsLimited b'
  lists-IsLimited b b' e v list =
      subst (IsWithinLimit find) (sym (list_of-lists b b' list e)) (v list)

  nil-IsWithinLimit : IsWithinLimit find []
  unfolding app_requests
  nil-IsWithinLimit uid name = ground arith

  on_delete_request_record-IsLimited :
      (b : Background) (h : ℕ) → IsLimited b → IsLimited (on_delete_request_record b h)
  on_delete_request_record-IsLimited b h v list = elim (Bool-cases b.feature_switch) [
    | inr f ↦ rw (on_delete_request_record_off b h f) (v list)
    | inl f ↦
        rw (list_of-on_delete_request_record b h list f)
          (elim (Bool-cases (b.requests_list == list && contains (list_of b list) h)) [
            | inl e ↦ rw e (remove_all-IsWithinLimit find h (list_of b list) (v list))
            | inr e ↦ rw e (v list)
          ])
  ]

  list_of-update_list_on_user_switch :
      (b : Background) (user : ℤ) (list : ℕ)
      → (list_of (update_list_on_user_switch b user) list ≡ [])
        ⊎ (list_of (update_list_on_user_switch b user) list ≡ list_of b list)
  unfolding update_list_on_user_switch list_of
  list_of-update_list_on_user_switch b user list = ground arith

  update_list_on_user_switch-IsLimited :
      (b : Background) (user : ℤ) → IsLimited b → IsLimited (update_list_on_user_switch b user)
  update_list_on_user_switch-IsLimited b user v list =
      elim (list_of-update_list_on_user_switch b user list) [
        | inl e ↦ subst (IsWithinLimit find) (sym e) nil-IsWithinLimit
        | inr e ↦ subst (IsWithinLimit find) (sym e) (v list)
      ]

  on_user_switch-IsLimited :
      (b : Background) (user : ℤ) → IsLimited b → IsLimited (on_user_switch b user)
  unfolding on_user_switch
  on_user_switch-IsLimited b user v =
      let b' = update_list_on_user_switch b user in
      lists-IsLimited b' (start_or_stop b') (lists-start_or_stop b')
        (update_list_on_user_switch-IsLimited b user v)

  update_list_on_suspend_missing :
      (env : Env) (b : Background) (h : ℕ) (r : Request D) (active : Bool)
      → lookup (env.user_id r.uid) b.requests_map ≡ none
      → update_list_on_suspend env b find h r active ≡ b
  unfolding update_list_on_suspend
  update_list_on_suspend_missing env b h r active m = ground (arith, m)

  lists-update_list_on_suspend :
      (env : Env) (b : Background) (h : ℕ) (r : Request D) (active : Bool) (l : ℕ)
      → lookup (env.user_id r.uid) b.requests_map ≡ some l
      → (update_list_on_suspend env b find h r active).lists
        ≡ update l (suspended_list env b find h r active (list_of b l)) b.lists
  unfolding update_list_on_suspend
  lists-update_list_on_suspend env b h r active l m = ground (arith, m)

  -- A list after a write to the store.
  list_of-update :
      (b b' : Background) (l list : ℕ) (rs : List ℕ)
      → b'.lists ≡ update l rs b.lists
      → (list_of b' list ≡ list_of b list) ⊎ ((l ≡ list) × (list_of b' list ≡ rs))
  unfolding list_of
  list_of-update b b' l list rs e =
      rw e (ground (arith, lookup-update l list rs b.lists, nat_eq.beq_iff l list))

  list_of-update_list_on_suspend :
      (env : Env) (b : Background) (h : ℕ) (r : Request D) (active : Bool) (list : ℕ)
      → (list_of (update_list_on_suspend env b find h r active) list ≡ list_of b list)
        ⊎ ((lookup (env.user_id r.uid) b.requests_map ≡ some list)
            × (list_of (update_list_on_suspend env b find h r active) list
                ≡ suspended_list env b find h r active (list_of b list)))
  list_of-update_list_on_suspend env b h r active list =
      elim (Option-cases (lookup (env.user_id r.uid) b.requests_map)) [
        | inl m ↦ inl (ap (λ x. list_of x list) (update_list_on_suspend_missing env b h r active m))
        | inr (l, m) ↦
            elim (list_of-update b (update_list_on_suspend env b find h r active) l list
              (suspended_list env b find h r active (list_of b l))
              (lists-update_list_on_suspend env b h r active l m)) [
                | inl same ↦ inl same
                | inr (e, changed) ↦ inr (
                  m ∙ ap some e,
                  changed ∙ ap (λ x. suspended_list env b find h r active (list_of b x)) e,
                )
              ]
      ]

  update_list_on_suspend-IsLimited :
      (env : Env) (b : Background) (h : ℕ) (r r' : Request D) (active : Bool)
      → find h ≡ some r'
      → r.uid ≡ r'.uid
      → r.package_name ≡ r'.package_name
      → IsLimited b
      → IsLimited (update_list_on_suspend env b find h r active)
  update_list_on_suspend-IsLimited env b h r r' active e eu en v list =
      elim (list_of-update_list_on_suspend env b h r active list) [
        | inl same ↦ subst (IsWithinLimit find) (sym same) (v list)
        | inr (m, changed) ↦
            subst (IsWithinLimit find) (sym changed)
              (suspended_list-IsWithinLimit env b find h r r' active list e eu en m (v list))
      ]

  on_suspend_off :
      (env : Env) (b : Background) (h : ℕ) (r : Request D) (active subscribed : Bool)
      → b.feature_switch ≡ false
      → on_suspend env b find h r active subscribed ≡ b
  unfolding on_suspend
  on_suspend_off env b h r active subscribed f = ground (arith, f)

  -- The answer of `Subscribe` noted, as OnSuspend does before it updates the list.
  abbrev noted : Background → Bool → Background
  noted b subscribed = record b {
    is_user_switch_subscribed = b.is_user_switch_subscribed || subscribed;
  }

  on_suspend_on :
      (env : Env) (b : Background) (h : ℕ) (r : Request D) (active subscribed : Bool)
      → b.feature_switch ≡ true
      → on_suspend env b find h r active subscribed
        ≡ start_or_stop (update_list_on_suspend env (noted b subscribed) find h r active)
  unfolding on_suspend
  on_suspend_on env b h r active subscribed f = ground (arith, f)

  on_suspend-IsLimited :
      (env : Env) (b : Background) (h : ℕ) (r r' : Request D) (active subscribed : Bool)
      → find h ≡ some r'
      → r.uid ≡ r'.uid
      → r.package_name ≡ r'.package_name
      → IsLimited b
      → IsLimited (on_suspend env b find h r active subscribed)
  on_suspend-IsLimited env b h r r' active subscribed e eu en v =
      elim (Bool-cases b.feature_switch) [
        | inr f ↦ subst IsLimited (sym (on_suspend_off env b h r active subscribed f)) v
        | inl f ↦
            let b' = noted b subscribed in
            let b'' = update_list_on_suspend env b' find h r active in
            let limited = lists-IsLimited b b' refl v in
            let kept = update_list_on_suspend-IsLimited env b' h r r' active e eu en limited in
            subst IsLimited (sym (on_suspend_on env b h r active subscribed f))
              (lists-IsLimited b'' (start_or_stop b'') (lists-start_or_stop b'') kept)
      ]

  list_of-new_background :
      (user : ℤ) (subscribed switch_on : Bool) (list : ℕ)
      → list_of (new_background user subscribed switch_on) list ≡ []
  unfolding list_of new_background
  list_of-new_background user subscribed switch_on list = ground arith

  Step-IsLimited : {b b' : Background} → Step find b b' → IsLimited b → IsLimited b'
  unfolding on_user_remove
  Step-IsLimited {b} (switched enable) v =
      lists-IsLimited b (on_sa_state_change b enable) (lists-on_sa_state_change b enable) v
  Step-IsLimited {b} (deleted h) v = on_delete_request_record-IsLimited b h v
  Step-IsLimited {b} (user_switched user) v = on_user_switch-IsLimited b user v
  Step-IsLimited {b} (user_removed user) v = lists-IsLimited b (on_user_remove b user) refl v
  Step-IsLimited {b} (suspended env h r r' active subscribed e eu en) v =
      on_suspend-IsLimited env b h r r' active subscribed e eu en v
  Step-IsLimited {b} (started ts us e) v =
      let b' = record b { threads = ts ++ us } in
      lists-IsLimited b (start_locked b').0 (lists-start_locked b') v
  Step-IsLimited {b} (stopped ts us e) v =
      let b' = record b { threads = ts ++ us } in
      lists-IsLimited b (stop_locked b').0 (lists-stop_locked b') v

  -- In every state the proxy can reach, no list of requests has two of one app.
  pub Reach-IsLimited :
      {user : ℤ} {subscribed switch_on : Bool} {b : Background}
      → Reach find user subscribed switch_on b
      → IsLimited b
  Reach-IsLimited {user} {subscribed} {switch_on} created list =
      subst (IsWithinLimit find) (sym (list_of-new_background user subscribed switch_on list))
        nil-IsWithinLimit
  Reach-IsLimited (stepped r s) list = Step-IsLimited s (Reach-IsLimited r) list
