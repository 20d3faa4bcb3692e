-- ===== src/RequestManager/Sends.antt =====
-- What HandleRequest sends to the abilities.
use gitee_oh_base_location.Base.{
  ℕ, Bool, Bool-cases, List, Option, Option-cases, String, [], ap, append-nil, append_assoc, arith,
  false, if◌then◌else◌, inl, inr, int_eq, nat_eq, none, refl, some, string_eq, sym, ◌&&◌, ◌++◌,
  ◌==◌, ◌||◌, ◌∙◌, ◌∷◌, ◌≡◌,
}
use gitee_oh_base_location.Common.{
  ability_convert_to_id, gnss_ability, network_ability, passive_ability,
}
use gitee_oh_base_location.Env.{Env}
use gitee_oh_base_location.Fusion.{process}
use gitee_oh_base_location.WorkRecord.{WorkRecord, new_record, set_device_id}
use gitee_oh_base_location.WorkRecord.Columns.{columns}
use gitee_oh_base_location.RequestManager.{
  Service, send_location_request, request_quick_fix, find, act,
}
use gitee_oh_base_location.RequestManager.Handlers.{
  add_requests, quick_fix, process_fusion, send_to_ability, proxy_send_location_request,
  handle_ability_request, handle_abilities, handle_request,
}
use gitee_oh_base_location.RequestManager.Work.{
  sends, sends-append, entry, entries, entries-cong, add_requests_work, entry-add_requests,
  sends-add_requests,
}

-- Whether an ability can be sent a record.
abbrev pub is_served : Env → String → Bool
is_served env name = elim (ability_convert_to_id name) [
  | none ↦ false
  | some sa ↦
      env.remote sa
      && (name == gnss_ability || (name == network_ability || name == passive_ability))
]

module _ {D : Type 0} where
  -- A record for each ability that can be reached, with one row for each of its requests that is
  -- requesting and permitted, in the order of its list.
  abbrev pub sent_for : Env → Service D → List (String × List ℕ) → List (String × WorkRecord)
  sent_for env s [] = []
  sent_for env s ((name, hs) ∷ m) =
      if is_served env name
      then (name, columns "" (entries env s hs)) ∷ sent_for env s m
      else sent_for env s m

  sends-quick_fix :
      (s : Service D) (state : Option Bool) → sends (quick_fix s state).trace ≡ sends s.trace
  unfolding quick_fix act
  sends-quick_fix s none = refl
  sends-quick_fix s (some state) =
      sends-append s.trace (request_quick_fix state ∷ []) ∙ append-nil (sends s.trace)

  entry-quick_fix :
      (env : Env) (s : Service D) (state : Option Bool) (k : ℕ)
      → entry env (quick_fix s state) k ≡ entry env s k
  unfolding quick_fix act find
  entry-quick_fix env s none k = refl
  entry-quick_fix env s (some state) k = refl

  sends-send_to_ability :
      (s : Service D) (name : String) (w : WorkRecord)
      → sends (send_to_ability s name w).trace ≡ (
          if name == gnss_ability || (name == network_ability || name == passive_ability)
          then sends s.trace ++ (name, set_device_id w "") ∷ []
          else sends s.trace)
  unfolding send_to_ability act
  sends-send_to_ability s name w =
      ground (arith, sends-append s.trace (send_location_request name (set_device_id w "") ∷ []))

  entry-send_to_ability :
      (env : Env) (s : Service D) (name : String) (w : WorkRecord) (k : ℕ)
      → entry env (send_to_ability s name w) k ≡ entry env s k
  unfolding send_to_ability act find
  entry-send_to_ability env s name w k = ground arith

  sends-process_fusion :
      (s : Service D) (name : String) → sends (process_fusion s name).trace ≡ sends s.trace
  unfolding process_fusion
  sends-process_fusion s name =
      let (fusion', state) = process s.fusion name in
      sends-quick_fix (record s { fusion = fusion' }) state

  entry-process_fusion :
      (env : Env) (s : Service D) (name : String) (k : ℕ)
      → entry env (process_fusion s name) k ≡ entry env s k
  unfolding process_fusion find
  entry-process_fusion env s name k =
      let (fusion', state) = process s.fusion name in
      entry-quick_fix env (record s { fusion = fusion' }) state k

  sends-proxy_send_location_request :
      (env : Env) (s : Service D) (name : String) (w : WorkRecord)
      → sends (proxy_send_location_request env s name w).trace ≡ (
          if is_served env name
          then sends s.trace ++ (name, set_device_id w "") ∷ []
          else sends s.trace)
  unfolding proxy_send_location_request
  sends-proxy_send_location_request env s name w =
      ground (
        arith,
        sends-process_fusion (send_to_ability s name w) name,
        sends-send_to_ability s name w,
      )

  entry-proxy_send_location_request :
      (env : Env) (s : Service D) (name : String) (w : WorkRecord) (k : ℕ)
      → entry env (proxy_send_location_request env s name w) k ≡ entry env s k
  unfolding proxy_send_location_request find
  entry-proxy_send_location_request env s name w k =
      elim (Option-cases (ability_convert_to_id name)) [
        | inl e ↦ rw (e, proxy_send_location_request) refl
        | inr (sa, e) ↦ elim (Bool-cases (env.remote sa)) [
          | inl y ↦
              rw (e, proxy_send_location_request, y)
                (entry-process_fusion env (send_to_ability s name w) name k
                  ∙ entry-send_to_ability env s name w k)
          | inr n ↦ rw (e, proxy_send_location_request, n) refl
        ]
      ]

  entry-handle_ability_request :
      (env : Env) (s : Service D) (name : String) (hs : List ℕ) (k : ℕ)
      → entry env (handle_ability_request env s name hs) k ≡ entry env s k
  unfolding handle_ability_request
  entry-handle_ability_request env s name hs k =
      let (s', w) = add_requests env hs s new_record in
      entry-proxy_send_location_request env s' name w k ∙ entry-add_requests env hs s new_record k

  sends-handle_ability_request :
      (env : Env) (s : Service D) (name : String) (hs : List ℕ)
      → sends (handle_ability_request env s name hs).trace
        ≡ sends s.trace ++ sent_for env s ((name, hs) ∷ [])
  unfolding handle_ability_request new_record set_device_id
  sends-handle_ability_request env s name hs =
      let (s', w) = add_requests env hs s new_record in
      sends-proxy_send_location_request env s' name w
      ∙ ground (
        arith,
        sends-add_requests env hs s new_record,
        add_requests_work env hs s "" [],
        append-nil (sends s.trace),
      )

  sent_for-cong :
      (env : Env) (s s' : Service D) (m : List (String × List ℕ))
      → ((k : ℕ) → entry env s' k ≡ entry env s k)
      → sent_for env s' m ≡ sent_for env s m
  sent_for-cong env s s' [] same = refl
  sent_for-cong env s s' ((name, hs) ∷ m) same =
      rw (entries-cong env s s' hs same, sent_for-cong env s s' m same)

  sent_for-cons :
      (env : Env) (s : Service D) (name : String) (hs : List ℕ) (m : List (String × List ℕ))
      → sent_for env s ((name, hs) ∷ []) ++ sent_for env s m ≡ sent_for env s ((name, hs) ∷ m)
  sent_for-cons env s name hs m = elim (Bool-cases (is_served env name)) [
    | inl e ↦ rw e refl
    | inr e ↦ rw e refl
  ]

  sends-handle_abilities :
      (env : Env) (m : List (String × List ℕ)) (s : Service D)
      → sends (handle_abilities env m s).trace ≡ sends s.trace ++ sent_for env s m
  unfolding handle_abilities
  sends-handle_abilities env [] s = sym (append-nil (sends s.trace))
  sends-handle_abilities env ((name, hs) ∷ m) s =
      let s' = handle_ability_request env s name hs in
      sends-handle_abilities env m s'
      ∙ ap (λ x. sends s'.trace ++ x)
          (sent_for-cong env s s' m (entry-handle_ability_request env s name hs))
      ∙ ap (λ x. x ++ sent_for env s m) (sends-handle_ability_request env s name hs)
      ∙ append_assoc (sends s.trace) (sent_for env s ((name, hs) ∷ [])) (sent_for env s m)
      ∙ ap (λ x. sends s.trace ++ x) (sent_for-cons env s name hs m)

  -- HandleRequest sends one work record to each ability that can be reached, in the order of the map.
  -- Its rows are those of the requests of the ability that are requesting and have a permission to
  -- locate, in order, as they were when HandleRequest was called.
  pub handle_request-sends :
      (env : Env) (s : Service D)
      → sends (handle_request env s).trace ≡ sends s.trace ++ sent_for env s s.requests
  unfolding handle_request
  handle_request-sends env s = sends-handle_abilities env s.requests s
