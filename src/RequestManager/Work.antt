-- ===== src/RequestManager/Work.antt =====
-- The work records that HandleRequest sends.
use gitee_oh_base_location.Base.{
  ℕ, Bool, List, Option-cases, String, [], ap, append-nil, arith, if◌then◌else◌, inl, inr, nat_eq,
  none, refl, some, ◌&&◌, ◌++◌, ◌∷◌, ◌≡◌, Bool-cases, append_assoc, ◌∙◌, Option, sym,
}
use gitee_oh_base_location.Common.{access_approximately_location}
use gitee_oh_base_location.Env.{Env}
use gitee_oh_base_location.Request.{Request}
use gitee_oh_base_location.WorkRecord.{WorkRecord}
use gitee_oh_base_location.WorkRecord.Columns.{Row, columns}
use gitee_oh_base_location.WorkRecord.Rows.{add-columns}
use gitee_oh_base_location.RequestManager.{
  Service, Action, start_using_permission, stop_using_permission, location_session_start,
  send_location_request, request_quick_fix, apply_requests, find, act, update_using_permission,
  use_permission,
}
use gitee_oh_base_location.RequestManager.Handlers.{
  is_permitted, add_request, add_request_to_work_record, active_locating_strategies, add_requests,
}
use gitee_oh_base_location.RequestManager.Permission.{
  find-update_using_permission, update_using_permission_missing, update_using_permission_found,
  flagged, granted,
}

-- The work records that have been sent, in order.
abbrev pub sends : List Action → List (String × WorkRecord)
sends [] = []
sends (send_location_request ability work ∷ trace) = (ability, work) ∷ sends trace
sends (start_using_permission token permission ∷ trace) = sends trace
sends (stop_using_permission token permission ∷ trace) = sends trace
sends (location_session_start request ∷ trace) = sends trace
sends (request_quick_fix state ∷ trace) = sends trace
sends (apply_requests ∷ trace) = sends trace

pub sends-append : (xs ys : List Action) → sends (xs ++ ys) ≡ sends xs ++ sends ys
sends-append [] ys = refl
sends-append (send_location_request ability work ∷ xs) ys =
    ap (◌∷◌ (ability, work)) (sends-append xs ys)
sends-append (start_using_permission token permission ∷ xs) ys = sends-append xs ys
sends-append (stop_using_permission token permission ∷ xs) ys = sends-append xs ys
sends-append (location_session_start request ∷ xs) ys = sends-append xs ys
sends-append (request_quick_fix state ∷ xs) ys = sends-append xs ys
sends-append (apply_requests ∷ xs) ys = sends-append xs ys

module _ {D : Type 0} where
  abbrev pub row_of : Request D → Row
  row_of r = record {
    uid = r.uid;
    pid = r.pid;
    name = r.package_name;
    interval = r.config.time_interval;
    uuid = r.uuid;
  }

  abbrev entry_of : Env → Option (Request D) → List Row
  entry_of env none = []
  entry_of env (some r) = if r.is_requesting && is_permitted env r then row_of r ∷ [] else []

  -- The row of a request, where it is requesting and permitted.
  abbrev pub entry : Env → Service D → ℕ → List Row
  entry env s h = entry_of env (find s h)

  abbrev pub entries : Env → Service D → List ℕ → List Row
  entries env s [] = []
  entries env s (h ∷ hs) = entry env s h ++ entries env s hs

  entry-update_using_permission :
      (env : Env) (s : Service D) (h k : ℕ)
      → entry env (update_using_permission env s h) k ≡ entry env s k
  unfolding is_permitted
  entry-update_using_permission env s h k = elim (Option-cases (find s h)) [
    | inl e ↦ ap (λ x. entry env x k) (update_using_permission_missing env s h e)
    | inr (r, e) ↦ ground (arith, e, find-update_using_permission env s h k r e, nat_eq.beq_iff h k)
  ]

  entry-active_locating_strategies :
      (env : Env) (s : Service D) (h k : ℕ)
      → entry env (active_locating_strategies s h) k ≡ entry env s k
  unfolding active_locating_strategies find
  entry-active_locating_strategies env s h k = ground arith

  pub entries-cong :
      (env : Env) (s s' : Service D) (hs : List ℕ)
      → ((k : ℕ) → entry env s' k ≡ entry env s k)
      → entries env s' hs ≡ entries env s hs
  entries-cong env s s' [] same = refl
  entries-cong env s s' (h ∷ hs) same = rw (same h, entries-cong env s s' hs same)

  sends-use_permission :
      (s : Service D) (h token : ℕ) (name : String) (flag used : Bool) (r : Request D)
      → sends (use_permission s h token name flag used r).trace ≡ sends s.trace
  unfolding use_permission act gitee_oh_base_location.RequestManager.modify
  sends-use_permission s h token name flag used r = ground (
    arith,
    sends-append s.trace (start_using_permission token name ∷ []),
    sends-append s.trace (stop_using_permission token name ∷ []),
    append-nil (sends s.trace),
  )

  sends-update_using_permission :
      (env : Env) (s : Service D) (h : ℕ)
      → sends (update_using_permission env s h).trace ≡ sends s.trace
  sends-update_using_permission env s h = elim (Option-cases (find s h)) [
    | inl e ↦ ap (λ x. sends x.trace) (update_using_permission_missing env s h e)
    | inr (r, e) ↦ rw (update_using_permission_found env s h r e) (
        sends-use_permission s h r.token_id access_approximately_location (granted env s r)
          r.is_using_approximately_perm (flagged r (granted env s r)))
  ]

  add_entry : Env → Option (Request D) → WorkRecord → WorkRecord
  add_entry env none w = w
  add_entry env (some r) w = if r.is_requesting && is_permitted env r then add_request r w else w

  add_entry-columns :
      (env : Env) (o : Option (Request D)) (id : String) (rs : List Row)
      → add_entry env o (columns id rs) ≡ columns id (rs ++ entry_of env o)
  unfolding add_entry add_request
  add_entry-columns env none id rs = ap (columns id) (sym (append-nil rs))
  add_entry-columns env (some r) id rs = elim (Bool-cases (r.is_requesting && is_permitted env r)) [
    | inl e ↦ rw e (add-columns id (row_of r) rs)
    | inr e ↦ rw e (ap (columns id) (sym (append-nil rs)))
  ]

  -- One step of the loop: what it does to the record.
  added_entry :
      (env : Env) (s : Service D) (h : ℕ) (w : WorkRecord)
      → (add_request_to_work_record env s h w).1.0
        ≡ add_entry env (find (update_using_permission env s h) h) w
  unfolding add_request_to_work_record add_entry
  added_entry env s h w = ground arith

  added_work :
      (env : Env) (s : Service D) (h : ℕ) (id : String) (rs : List Row)
      → (add_request_to_work_record env s h (columns id rs)).1.0 ≡ columns id (rs ++ entry env s h)
  added_work env s h id rs =
      added_entry env s h (columns id rs)
      ∙ add_entry-columns env (find (update_using_permission env s h) h) id rs
      ∙ ap (λ es. columns id (rs ++ es)) (entry-update_using_permission env s h h)

  -- The service after that step.
  abbrev pub added_service : Env → Service D → ℕ → WorkRecord → Service D
  added_service env s h w =
      let (s', (w', added)) = add_request_to_work_record env s h w in
      if added then active_locating_strategies s' h else s'

  pub service-add_request_to_work_record :
      (env : Env) (s : Service D) (h : ℕ) (w : WorkRecord)
      → (add_request_to_work_record env s h w).0 ≡ update_using_permission env s h
  unfolding add_request_to_work_record
  service-add_request_to_work_record env s h w = ground arith

  entry-added_service :
      (env : Env) (s : Service D) (h : ℕ) (w : WorkRecord) (k : ℕ)
      → entry env (added_service env s h w) k ≡ entry env s k
  entry-added_service env s h w k =
      rw (service-add_request_to_work_record env s h w)
        (elim (Bool-cases (add_request_to_work_record env s h w).1.1) [
          | inl e ↦ rw e (
              entry-active_locating_strategies env (update_using_permission env s h) h k
              ∙ entry-update_using_permission env s h k)
          | inr e ↦ rw e (entry-update_using_permission env s h k)
        ])

  trace-active_locating_strategies :
      (s : Service D) (h : ℕ) → (active_locating_strategies s h).trace ≡ s.trace
  unfolding active_locating_strategies
  trace-active_locating_strategies s h = ground arith

  sends-added_service :
      (env : Env) (s : Service D) (h : ℕ) (w : WorkRecord)
      → sends (added_service env s h w).trace ≡ sends s.trace
  sends-added_service env s h w =
      rw (service-add_request_to_work_record env s h w)
        (elim (Bool-cases (add_request_to_work_record env s h w).1.1) [
          | inl e ↦
              rw (e, trace-active_locating_strategies (update_using_permission env s h) h)
                (sends-update_using_permission env s h)
          | inr e ↦ rw e (sends-update_using_permission env s h)
        ])

  pub add_requests_work :
      (env : Env) (hs : List ℕ) (s : Service D) (id : String) (rs : List Row)
      → (add_requests env hs s (columns id rs)).1 ≡ columns id (rs ++ entries env s hs)
  unfolding add_requests
  add_requests_work env [] s id rs = ap (columns id) (sym (append-nil rs))
  add_requests_work env (h ∷ hs) s id rs =
      let s' = added_service env s h (columns id rs) in
      let same = entries-cong env s s' hs (entry-added_service env s h (columns id rs)) in
      ap (λ w. (add_requests env hs s' w).1) (added_work env s h id rs)
      ∙ add_requests_work env hs s' id (rs ++ entry env s h)
      ∙ ap (columns id) (
          ap (λ es. (rs ++ entry env s h) ++ es) same
          ∙ append_assoc rs (entry env s h) (entries env s hs))

  pub entry-add_requests :
      (env : Env) (hs : List ℕ) (s : Service D) (w : WorkRecord) (k : ℕ)
      → entry env (add_requests env hs s w).0 k ≡ entry env s k
  unfolding add_requests
  entry-add_requests env [] s w k = refl
  entry-add_requests env (h ∷ hs) s w k =
      entry-add_requests env hs (added_service env s h w) (add_request_to_work_record env s h w).1.0
        k
      ∙ entry-added_service env s h w k

  pub sends-add_requests :
      (env : Env) (hs : List ℕ) (s : Service D) (w : WorkRecord)
      → sends (add_requests env hs s w).0.trace ≡ sends s.trace
  unfolding add_requests
  sends-add_requests env [] s w = refl
  sends-add_requests env (h ∷ hs) s w =
      sends-add_requests env hs (added_service env s h w) (add_request_to_work_record env s h w).1.0
      ∙ sends-added_service env s h w
