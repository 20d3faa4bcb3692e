-- ===== src/Background/Events.antt =====
-- The proxy over time: its handlers and its detached threads, in any order.
use gitee_oh_base_location.Base.{
  ℕ, Bool, List, Option, [], arith, if◌then◌else◌, refl, some, suc, ℤ, ◌++◌, ◌+◌, ◌∷◌, ◌≡◌, ap,
  int_eq, nat_eq, string_eq,
}
use gitee_oh_base_location.Env.{Env}
use gitee_oh_base_location.Request.{Request}
use gitee_oh_base_location.Background.{
  Background, Thread, start_thread, stop_thread, new_background, start_locator, stop_locator,
  start_or_stop, start_locked, stop_locked, on_sa_state_change, on_delete_request_record,
  on_user_switch, update_list_on_user_switch, on_user_remove, on_suspend, update_list_on_suspend,
}

unfoldable pub starts : List Thread → ℕ
starts [] = 0
starts (start_thread ∷ ts) = suc (starts ts)
starts (stop_thread ∷ ts) = starts ts

starts-append : (ts us : List Thread) → starts (ts ++ us) ≡ starts ts + starts us
unfolding starts
starts-append [] us = ground arith
starts-append (start_thread ∷ ts) us = ground (arith, starts-append ts us)
starts-append (stop_thread ∷ ts) us = ground (arith, starts-append ts us)

module _ {D : Type 0} (find : ℕ → Option (Request D)) where
  -- One handler, or the part under the lock of one of the threads that have been started. The
  -- requests `find` keep their uid and their package.
  pub data Step (b : Background) : Background → Type 0 where
    switched : (enable : Bool) → Step b (on_sa_state_change b enable)
    deleted : (h : ℕ) → Step b (on_delete_request_record b h)
    user_switched : (user : ℤ) → Step b (on_user_switch b user)
    user_removed : (user : ℤ) → Step b (on_user_remove b user)
    suspended :
        (env : Env) (h : ℕ) (r r' : Request D) (active subscribed : Bool)
        → find h ≡ some r'
        → r.uid ≡ r'.uid
        → r.package_name ≡ r'.package_name
        → Step b (on_suspend env b find h r active subscribed)
    started :
        (ts us : List Thread)
        → b.threads ≡ ts ++ start_thread ∷ us
        → Step b (start_locked (record b { threads = ts ++ us })).0
    stopped :
        (ts us : List Thread)
        → b.threads ≡ ts ++ stop_thread ∷ us
        → Step b (stop_locked (record b { threads = ts ++ us })).0

  pub data Reach (user : ℤ) (subscribed switch_on : Bool) : Background → Type 0 where
    created : Reach user subscribed switch_on (new_background user subscribed switch_on)
    stepped :
        {b b' : Background}
        → Reach user subscribed switch_on b
        → Step b b'
        → Reach user subscribed switch_on b'

-- One start thread is waiting exactly while `isWating_` is set.
abbrev pub IsWaitingRight : Background → Type 0
IsWaitingRight b = starts b.threads ≡ (if b.is_waiting then 1 else 0)

start_or_stop-IsWaitingRight :
    (b : Background) → IsWaitingRight b → IsWaitingRight (start_or_stop b)
unfolding start_or_stop start_locator stop_locator starts
start_or_stop-IsWaitingRight b v = ground (
  arith,
  v,
  starts-append b.threads (start_thread ∷ []),
  starts-append b.threads (stop_thread ∷ []),
)

on_sa_state_change-IsWaitingRight :
    (b : Background) (enable : Bool)
    → IsWaitingRight b
    → IsWaitingRight (on_sa_state_change b enable)
unfolding on_sa_state_change start_locator stop_locator starts
on_sa_state_change-IsWaitingRight b enable v = ground (
  arith,
  v,
  starts-append b.threads (start_thread ∷ []),
  starts-append b.threads (stop_thread ∷ []),
)

on_delete_request_record-IsWaitingRight :
    (b : Background) (h : ℕ) → IsWaitingRight b → IsWaitingRight (on_delete_request_record b h)
unfolding on_delete_request_record stop_locator starts
on_delete_request_record-IsWaitingRight b h v =
    ground (arith, v, starts-append b.threads (stop_thread ∷ []))

update_list_on_user_switch-IsWaitingRight :
    (b : Background) (user : ℤ)
    → IsWaitingRight b
    → IsWaitingRight (update_list_on_user_switch b user)
unfolding update_list_on_user_switch
update_list_on_user_switch-IsWaitingRight b user v = ground (arith, v)

on_user_switch-IsWaitingRight :
    (b : Background) (user : ℤ) → IsWaitingRight b → IsWaitingRight (on_user_switch b user)
unfolding on_user_switch
on_user_switch-IsWaitingRight b user v =
    start_or_stop-IsWaitingRight (update_list_on_user_switch b user)
      (update_list_on_user_switch-IsWaitingRight b user v)

started-IsWaitingRight :
    (b : Background) (ts us : List Thread)
    → b.threads ≡ ts ++ start_thread ∷ us
    → IsWaitingRight b
    → IsWaitingRight (start_locked (record b { threads = ts ++ us })).0
unfolding start_locked starts
started-IsWaitingRight b ts us e v =
    ground (arith, ap starts e, v, starts-append ts us, starts-append ts (start_thread ∷ us))

stopped-IsWaitingRight :
    (b : Background) (ts us : List Thread)
    → b.threads ≡ ts ++ stop_thread ∷ us
    → IsWaitingRight b
    → IsWaitingRight (stop_locked (record b { threads = ts ++ us })).0
unfolding stop_locked starts
stopped-IsWaitingRight b ts us e v =
    ground (arith, ap starts e, v, starts-append ts us, starts-append ts (stop_thread ∷ us))

module _ {D : Type 0} (find : ℕ → Option (Request D)) where
  on_suspend-IsWaitingRight :
      (env : Env) (b : Background) (h : ℕ) (r : Request D) (active subscribed : Bool)
      → IsWaitingRight b
      → IsWaitingRight (on_suspend env b find h r active subscribed)
  unfolding on_suspend update_list_on_suspend start_or_stop start_locator stop_locator starts
  on_suspend-IsWaitingRight env b h r active subscribed v = ground (
    arith,
    v,
    starts-append b.threads (start_thread ∷ []),
    starts-append b.threads (stop_thread ∷ []),
  )

  Step-IsWaitingRight : {b b' : Background} → Step find b b' → IsWaitingRight b → IsWaitingRight b'
  unfolding on_user_remove
  Step-IsWaitingRight {b} (switched enable) v = on_sa_state_change-IsWaitingRight b enable v
  Step-IsWaitingRight {b} (deleted h) v = on_delete_request_record-IsWaitingRight b h v
  Step-IsWaitingRight {b} (user_switched user) v = on_user_switch-IsWaitingRight b user v
  Step-IsWaitingRight {b} (user_removed user) v = v
  Step-IsWaitingRight {b} (suspended env h r r' active subscribed e eu en) v =
      on_suspend-IsWaitingRight env b h r active subscribed v
  Step-IsWaitingRight {b} (started ts us e) v = started-IsWaitingRight b ts us e v
  Step-IsWaitingRight {b} (stopped ts us e) v = stopped-IsWaitingRight b ts us e v

  -- In every state the proxy can reach, one thread that is to start locating has been started and
  -- has not run if `isWating_` is set, and none if it is not.
  pub Reach-IsWaitingRight :
      {user : ℤ} {subscribed switch_on : Bool} {b : Background}
      → Reach find user subscribed switch_on b
      → IsWaitingRight b
  unfolding new_background starts
  Reach-IsWaitingRight created = refl
  Reach-IsWaitingRight (stepped r s) = Step-IsWaitingRight s (Reach-IsWaitingRight r)
