-- ===== src/LocatorAbility/Switch.antt =====
-- StartLocating and StopLocating while the switch is off, and the uids that are frozen by proxy.
use gitee_oh_base_location.Base.{
  ℕ, Bool, List, [], any_by, arith, filter_by, if◌then◌else◌, int_eq, nat_eq, not, refl, string_eq,
  true, ℤ, ◌&&◌, ◌==◌, ◌∷◌, ◌≡◌, String, ap, lookup, none, some, ◌∙◌, Option, false, inl, inr, sym,
  ◌⊎◌,
}
use gitee_oh_base_location.ErrCode.{errcode_success}
use gitee_oh_base_location.Env.{Env}
use gitee_oh_base_location.Request.{Request, get_proxy_name}
use gitee_oh_base_location.RequestManager.{Service, find}
use gitee_oh_base_location.RequestManager.Handlers.{handle_start_locating}
use gitee_oh_base_location.RequestManager.Lists.{any_name, in_list, has_list}
use gitee_oh_base_location.RequestManager.Start.{handle_start_locating_new_callback}
use gitee_oh_base_location.LocatorAbility.{
  LocatorAbility, Notice, on_locating_status_change, session_start, disabled, query_switch_state,
  report_notice, report_location_status, report_error_status, update_sa_ability_handler,
  update_random, prepare, check_sa_valid, error_switch_unopen, start_locating, proxy_uid_for_freeze,
  is_proxy_uid,
}

any_by-filter :
    (u uid : ℤ) (uids : List ℤ)
    → any_by (λ i. i == u) (filter_by (λ i. not (i == uid)) uids)
      ≡ (any_by (λ i. i == u) uids && not (uid == u))
any_by-filter u uid [] = refl
any_by-filter u uid (i ∷ uids) = ground (
  arith,
  any_by-filter u uid uids,
  int_eq.beq_iff i u,
  int_eq.beq_iff i uid,
  int_eq.beq_iff uid u,
)

-- The stored switch after it has been asked for: as it was, or off where it could not be read.
abbrev pub IsKept : Option ℤ → Option ℤ → Type 0
IsKept v v' = (v' ≡ v) ⊎ ((v ≡ none) × (v' ≡ some disabled))

pub IsKept-trans : (u v w : Option ℤ) → IsKept u v → IsKept v w → IsKept u w
IsKept-trans u v w a b = ground (arith, a, b)

-- The state of the switch, for a value.
abbrev state_of : Option ℤ → ℤ
state_of none = disabled
state_of (some state) = state

IsKept-state : (v v' : Option ℤ) → IsKept v v' → state_of v' ≡ state_of v
IsKept-state v v' (inl e) = ap state_of e
IsKept-state v v' (inr (e, e')) = ap state_of e' ∙ sym (ap state_of e)

-- What may have changed after the switch has been asked for: not the lists, and while the switch is
-- off nobody has been told.
pub record IsAsked {D : Type 0} (l l' : LocatorAbility D) : Type 0 where
  pub value : IsKept l.switch_value l'.switch_value
  pub requests : l'.service.requests ≡ l.service.requests
  pub receivers : l'.service.receivers ≡ l.service.receivers
  pub notices : (state_of l.switch_value == disabled) ≡ true → l'.notices ≡ l.notices

module _ {D : Type 0} where
  -- After ProxyUidForFreeze a uid is frozen exactly if it is the one of the call and the call says so,
  -- or it is another one that was frozen before.
  pub is_proxy_uid-proxy_uid_for_freeze :
      (l : LocatorAbility D) (uid u : ℤ) (is_proxy : Bool)
      → is_proxy_uid (proxy_uid_for_freeze l uid is_proxy) u
        ≡ (if uid == u then is_proxy else is_proxy_uid l u)
  unfolding is_proxy_uid proxy_uid_for_freeze
  is_proxy_uid-proxy_uid_for_freeze l uid u is_proxy =
      ground (arith, any_by-filter u uid l.proxy_uids, int_eq.beq_iff uid u)

  made_found :
      (h : ℕ) (r : Request D) (s : Service D)
      → find (record s { store = (h, r) ∷ s.store }) h ≡ some r
  unfolding find
  made_found h r s = ground (arith, nat_eq.beq_iff h h)

  has_list-cong :
      (s s' : Service D) (n : String) → s'.requests ≡ s.requests → has_list s' n ≡ has_list s n
  has_list-cong s s' n e = rw e refl

  in_list-cong :
      (s s' : Service D) (n : String) (h : ℕ)
      → s'.requests ≡ s.requests
      → in_list s' n h ≡ in_list s n h
  in_list-cong s s' n h e = rw e refl

  query_switch_state-state :
      (l : LocatorAbility D) → (query_switch_state l).1 ≡ state_of l.switch_value
  unfolding query_switch_state
  query_switch_state-state l = ground arith

  pub IsKept-query :
      (l l' : LocatorAbility D)
      → IsKept l.switch_value l'.switch_value
      → (query_switch_state l').1 ≡ (query_switch_state l).1
  IsKept-query l l' k =
      query_switch_state-state l'
      ∙ IsKept-state l.switch_value l'.switch_value k
      ∙ sym (query_switch_state-state l)

  pub query_switch_state-IsAsked : (l : LocatorAbility D) → IsAsked l (query_switch_state l).0
  unfolding query_switch_state
  query_switch_state-IsAsked l = record {
    value = ground arith;
    requests = ground arith;
    receivers = ground arith;
    notices = λ off. ground arith;
  }

  pub report_notice-IsAsked :
      (l : LocatorAbility D) (notice : Notice) → IsAsked l (report_notice l notice).0
  unfolding report_notice
  report_notice-IsAsked l notice =
      let q = query_switch_state-IsAsked l in
      let e = query_switch_state-state l in
      record {
        value = ground (arith, q.value);
        requests = ground (arith, q.requests);
        receivers = ground (arith, q.receivers);
        notices = λ off. ground (arith, q.notices off, e, off);
      }

  update_sa_ability_handler-IsAsked :
      (l : LocatorAbility D) → IsAsked l (update_sa_ability_handler l)
  unfolding update_sa_ability_handler
  update_sa_ability_handler-IsAsked l =
      let q = query_switch_state-IsAsked l in
      record {
        value = q.value;
        requests = q.requests;
        receivers = q.receivers;
        notices = q.notices;
      }

  update_random-IsAsked :
      (l : LocatorAbility D) (long_ago : Bool) (random : D)
      → IsAsked l (update_random l long_ago random)
  unfolding update_random
  update_random-IsAsked l long_ago random = record {
    value = ground arith;
    requests = ground arith;
    receivers = ground arith;
    notices = λ off. ground arith;
  }

  either-IsAsked :
      (b : Bool) (l x y : LocatorAbility D)
      → IsAsked l x
      → IsAsked l y
      → IsAsked l (if b then x else y)
  either-IsAsked true l x y hx hy = hx
  either-IsAsked false l x y hx hy = hy

  IsAsked-refl : (l : LocatorAbility D) → IsAsked l l
  IsAsked-refl l = record {
    value = inl refl;
    requests = refl;
    receivers = refl;
    notices = λ off. refl;
  }

  IsAsked-trans : {l m n : LocatorAbility D} → IsAsked l m → IsAsked m n → IsAsked l n
  IsAsked-trans {l} {m} {n} a b = record {
    value = IsKept-trans l.switch_value m.switch_value n.switch_value a.value b.value;
    requests = b.requests ∙ a.requests;
    receivers = b.receivers ∙ a.receivers;
    notices = λ off.
        b.notices
          (ap (λ s. s == disabled) (IsKept-state l.switch_value m.switch_value a.value) ∙ off)
        ∙ a.notices off;
  }

  pub prepare-IsAsked :
      (l : LocatorAbility D) (callback : ℕ) (long_ago : Bool) (random : D)
      → IsAsked l (prepare l callback long_ago random)
  unfolding prepare report_error_status
  prepare-IsAsked l callback long_ago random =
      let asked = (query_switch_state l).0 in
      let told =
        if (query_switch_state l).1 == disabled
        then (report_error_status asked callback error_switch_unopen).0
        else asked in
      let first = query_switch_state-IsAsked l in
      let second =
        either-IsAsked ((query_switch_state l).1 == disabled) l
          (report_error_status asked callback error_switch_unopen).0 asked
          (IsAsked-trans first (report_notice-IsAsked asked _)) first in
      let third =
        either-IsAsked (check_sa_valid told) l told (update_sa_ability_handler told) second
          (IsAsked-trans second (update_sa_ability_handler-IsAsked told)) in
      IsAsked-trans third (update_random-IsAsked _ long_ago random)

  -- StartLocating for a new callback while the switch is off: the request is put into the list of
  -- each of its abilities that has one, the result is success, and the callback is told nothing, not
  -- even that the switch is off.
  pub start_locating_switch_off :
      (env : Env) (l : LocatorAbility D) (long_ago : Bool) (random : D) (h : ℕ) (r : Request D)
      (n : String)
      → ((query_switch_state l).1 == disabled) ≡ true
      → lookup r.callback l.service.receivers ≡ none
      → any_name (get_proxy_name r) n ≡ true
      → has_list l.service n ≡ true
      → ((start_locating env l long_ago random h r).1 ≡ errcode_success)
        × ((start_locating env l long_ago random h r).0.notices ≡ l.notices)
        × (in_list (start_locating env l long_ago random h r).0.service n h ≡ true)
  unfolding start_locating report_location_status
  start_locating_switch_off env l long_ago random h r n off new served has =
      let ready = prepare l r.callback long_ago random in
      let asked = prepare-IsAsked l r.callback long_ago random in
      let made : Service D = record ready.service { store = (h, r) ∷ ready.service.store } in
      let started = record ready { service = handle_start_locating env made h } in
      let off' : (state_of l.switch_value == disabled) ≡ true =
        ap (λ s. s == disabled) (sym (query_switch_state-state l)) ∙ off in
      let still_off : (state_of started.switch_value == disabled) ≡ true =
        ap (λ s. s == disabled) (IsKept-state l.switch_value ready.switch_value asked.value)
        ∙ off' in
      let told =
        report_notice-IsAsked started (on_locating_status_change r.callback session_start) in
      let receivers = ap (lookup r.callback) asked.receivers ∙ new in
      let lists : has_list made n ≡ true = has_list-cong l.service made n asked.requests ∙ has in
      let listed =
        (handle_start_locating_new_callback env made h r (made_found h r ready.service) n h
          receivers).0 in
      (
        refl,
        told.notices still_off ∙ asked.notices off',
        in_list-cong started.service (start_locating env l long_ago random h r).0.service n h
              told.requests
            ∙ listed
            ∙ ground (arith, served, lists, nat_eq.beq_iff h h),
      )
