-- ===== src/ReportManager/Delivery.antt =====
-- What a request is given when a location is reported.
use gitee_oh_base_location.Base.{
  ℕ, List, Option-cases, [], any_by, arith, false, inl, inr, int_eq, ltb_ℤ, nat_eq, pos, some,
  string_eq, true, ℤ, ◌++◌, ◌==◌, ◌∷◌, ◌≡◌, ◌⊎◌, Bool-cases, Bool, Option, ap, if◌then◌else◌, none,
  not, ◌∙◌,
}
use gitee_oh_base_location.Env.{Env}
use gitee_oh_base_location.Location.{Location}
use gitee_oh_base_location.Request.{Request, set_last_location}
use gitee_oh_base_location.RequestManager.{Service, find, modify}
use gitee_oh_base_location.ReportManager.{
  DoubleOps, Report, get_permitted_location, result_check, deliver, process_request_for_report,
}

module _ {D : Type 0} (ops : DoubleOps D) where
  result_check-uid :
      (env : Env) (proxy_uids : List ℤ) (l : Location D) (r : Request D)
      → result_check ops env proxy_uids (some l) r ≡ true
      → any_by (λ u. u == r.uid) proxy_uids ≡ false
  unfolding result_check
  result_check-uid env proxy_uids l r e = ground (arith, e)

  process_request_for_report_found :
      (env : Env) (proxy_uids : List ℤ) (s : Service D) (p : Report D) (l : Location D) (h : ℕ)
      (r : Request D) (o : Option (Location D)) (requesting : Bool)
      → find s h ≡ some r
      → get_permitted_location ops env p.offset_random r.uid r.token_id r.first_token_id (some l)
        ≡ o
      → r.is_requesting ≡ requesting
      → process_request_for_report ops env proxy_uids s p l h ≡ (
          if not requesting
          then (s, (p, false))
          else deliver ops s p h r o (result_check ops env proxy_uids o r))
  unfolding process_request_for_report
  process_request_for_report_found env proxy_uids s p l h r o requesting found e q =
      ground (arith, found)
      ∙ ap
          (λ x.
            if not r.is_requesting
            then (s, (p, false))
            else deliver ops s p h r x (result_check ops env proxy_uids x r))
          e
      ∙ ap
          (λ x.
            if not x
            then (s, (p, false))
            else deliver ops s p h r o (result_check ops env proxy_uids o r))
          q

  -- For a request of the store: either nothing is delivered, the request is as it was and not done;
  -- or its callback is given the location that it is permitted to see, once; then the request is
  -- requesting, it is not one of a frozen uid, and it is done if it asked for a number of fixes.
  pub process_request_for_report_lem :
      (env : Env) (proxy_uids : List ℤ) (s : Service D) (p : Report D) (l : Location D) (h : ℕ)
      (r : Request D)
      → find s h ≡ some r
      → (process_request_for_report ops env proxy_uids s p l h ≡ (s, (p, false)))
        ⊎ ((l' : Location D) × (get_permitted_location ops env p.offset_random r.uid r.token_id
                r.first_token_id
                (some l)
              ≡ some l')
            × (r.is_requesting ≡ true)
            × (any_by (λ u. u == r.uid) proxy_uids ≡ false)
            × (process_request_for_report ops env proxy_uids s p l h ≡ (
              modify s h (set_last_location r l'),
              (
                record p { delivered = p.delivered ++ (r.callback, l') ∷ [] },
                ltb_ℤ (pos 0) r.config.fix_number,
              ),
            )))
  unfolding process_request_for_report deliver
  process_request_for_report_lem env proxy_uids s p l h r found =
      let permitted =
        get_permitted_location ops env p.offset_random r.uid r.token_id r.first_token_id (some l) in
      let shown = process_request_for_report_found env proxy_uids s p l h r in
      elim (Option-cases permitted) [
        | inl e ↦ elim (Bool-cases r.is_requesting) [
          | inr q ↦ inl (shown none false found e q)
          | inl q ↦ inl (shown none true found e q)
        ]
        | inr (l', e) ↦ elim (Bool-cases r.is_requesting) [
          | inr q ↦ inl (shown (some l') false found e q)
          | inl q ↦ elim (Bool-cases (result_check ops env proxy_uids (some l') r)) [
            | inr c ↦ inl (shown (some l') true found e q ∙ ap (deliver ops s p h r (some l')) c)
            | inl c ↦ inr (
              l',
              e,
              q,
              result_check-uid env proxy_uids l' r c,
              shown (some l') true found e q ∙ ap (deliver ops s p h r (some l')) c,
            )
          ]
        ]
      ]
