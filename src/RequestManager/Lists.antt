-- ===== src/RequestManager/Lists.antt =====
-- What UpdateRequestRecord does to the lists of the abilities and to `runningUids_`.
use gitee_oh_base_location.Base.{
  ℕ, Bool, List, Option-cases, String, [], any_by, arith, false, filter_by, inl, inr, int_eq,
  lookup, lookup-update, nat_eq, none, not, refl, some, string_eq, true, ℤ, ◌&&◌, ◌++◌, ◌==◌, ◌||◌,
  ◌∷◌, ◌≡◌, ==→eq, Bool-cases, ap, ◌∙◌,
}
use gitee_oh_base_location.Request.{Request, get_proxy_name}
use gitee_oh_base_location.RequestManager.{
  Service, find, is_uid_in_processing, erase_request, update_ability_record, update_ability_records,
  update_request_record,
}
use gitee_oh_base_location.Background.{contains}
use gitee_oh_base_location.Background.Suspend.{contains-snoc}

erase_request-contains :
    (h k : ℕ) (uid : ℤ) (hs : List ℕ) (uids : List ℤ)
    → contains (erase_request h uid hs uids).0 k ≡ (not (h == k) && contains hs k)
unfolding erase_request
erase_request-contains h k uid [] uids = ground arith
erase_request-contains h k uid (j ∷ hs) uids = ground (
  arith,
  erase_request-contains h k uid hs uids,
  erase_request-contains h k uid hs (filter_by (λ u. not (u == uid)) uids),
  nat_eq.beq_iff h j,
  nat_eq.beq_iff h k,
  nat_eq.beq_iff j k,
)

any_by-filter_by :
    (u uid : ℤ) (uids : List ℤ)
    → any_by (λ i. i == u) (filter_by (λ i. not (i == uid)) uids)
      ≡ (any_by (λ i. i == u) uids && not (uid == u))
any_by-filter_by u uid [] = refl
any_by-filter_by u uid (i ∷ uids) = ground (
  arith,
  any_by-filter_by u uid uids,
  int_eq.beq_iff i u,
  int_eq.beq_iff i uid,
  int_eq.beq_iff uid u,
)

-- All the occurrences of the uid go, whatever other requests it has.
erase_request-uids :
    (h : ℕ) (uid u : ℤ) (hs : List ℕ) (uids : List ℤ)
    → any_by (λ i. i == u) (erase_request h uid hs uids).1
      ≡ (any_by (λ i. i == u) uids && not (uid == u && contains hs h))
unfolding erase_request
erase_request-uids h uid u [] uids = ground arith
erase_request-uids h uid u (j ∷ hs) uids = ground (
  arith,
  erase_request-uids h uid u hs uids,
  erase_request-uids h uid u hs (filter_by (λ i. not (i == uid)) uids),
  any_by-filter_by u uid uids,
  nat_eq.beq_iff h j,
  nat_eq.beq_iff j h,
)

abbrev pub any_name : List String → String → Bool
any_name names n = any_by (λ name. name == n) names

module _ {D : Type 0} where
  -- Whether the list of an ability is there, and whether it has a request.
  abbrev pub has_list : Service D → String → Bool
  has_list s name = elim (lookup name s.requests) [ none ↦ false | some hs ↦ true ]

  abbrev pub in_list : Service D → String → ℕ → Bool
  in_list s name k = elim (lookup name s.requests) [ none ↦ false | some hs ↦ contains hs k ]

  inserted-in_list :
      (s : Service D) (h : ℕ) (uid : ℤ) (name n : String) (k : ℕ)
      → in_list (update_ability_record s h uid true name) n k
        ≡ (in_list s n k || (name == n && (has_list s n && h == k)))
  unfolding update_ability_record
  inserted-in_list s h uid name n k = elim (Option-cases (lookup name s.requests)) [
    | inl e ↦ ground (arith, e, string_eq.beq_iff name n)
    | inr (hs, e) ↦ ground (
      arith,
      e,
      lookup-update name n (hs ++ h ∷ []) s.requests,
      contains-snoc h k hs,
      string_eq.beq_iff name n,
    )
  ]

  erased-in_list :
      (s : Service D) (h : ℕ) (uid : ℤ) (name n : String) (k : ℕ)
      → in_list (update_ability_record s h uid false name) n k
        ≡ (in_list s n k && not (name == n && h == k))
  unfolding update_ability_record
  erased-in_list s h uid name n k = elim (Option-cases (lookup name s.requests)) [
    | inl e ↦ ground (arith, e, string_eq.beq_iff name n)
    | inr (hs, e) ↦ ground (
      arith,
      e,
      lookup-update name n (erase_request h uid hs s.running_uids).0 s.requests,
      erase_request-contains h k uid hs s.running_uids,
      string_eq.beq_iff name n,
    )
  ]

  erased-uids :
      (s : Service D) (h : ℕ) (uid : ℤ) (name : String) (u : ℤ)
      → is_uid_in_processing (update_ability_record s h uid false name) u
        ≡ (is_uid_in_processing s u && not (uid == u && in_list s name h))
  unfolding update_ability_record is_uid_in_processing
  erased-uids s h uid name u = elim (Option-cases (lookup name s.requests)) [
    | inl e ↦ ground (arith, e)
    | inr (hs, e) ↦ ground (arith, e, erase_request-uids h uid u hs s.running_uids)
  ]

  has_list-update_ability_record :
      (s : Service D) (h : ℕ) (uid : ℤ) (should_insert : Bool) (name n : String)
      → has_list (update_ability_record s h uid should_insert name) n ≡ has_list s n
  unfolding update_ability_record
  has_list-update_ability_record s h uid should_insert name n =
      elim (Option-cases (lookup name s.requests)) [
        | inl e ↦ ground (arith, e)
        | inr (hs, e) ↦ ground (
          arith,
          e,
          lookup-update name n (hs ++ h ∷ []) s.requests,
          lookup-update name n (erase_request h uid hs s.running_uids).0 s.requests,
          string_eq.beq_iff name n,
        )
      ]

  inserted-in_lists :
      (h : ℕ) (uid : ℤ) (names : List String) (s : Service D) (n : String) (k : ℕ)
      → in_list (update_ability_records h uid true names s) n k
        ≡ (in_list s n k || (any_name names n && (has_list s n && h == k)))
  unfolding update_ability_records
  inserted-in_lists h uid [] s n k = ground arith
  inserted-in_lists h uid (name ∷ names) s n k =
      let s' = update_ability_record s h uid true name in
      inserted-in_lists h uid names s' n k
      ∙ ground (
        arith,
        inserted-in_list s h uid name n k,
        has_list-update_ability_record s h uid true name n,
      )

  erased-in_lists :
      (h : ℕ) (uid : ℤ) (names : List String) (s : Service D) (n : String) (k : ℕ)
      → in_list (update_ability_records h uid false names s) n k
        ≡ (in_list s n k && not (any_name names n && h == k))
  unfolding update_ability_records
  erased-in_lists h uid [] s n k = ground arith
  erased-in_lists h uid (name ∷ names) s n k =
      let s' = update_ability_record s h uid false name in
      erased-in_lists h uid names s' n k ∙ ground (arith, erased-in_list s h uid name n k)

  any_in_list :
      (s : Service D) (h : ℕ) (uid : ℤ) (name : String) (names : List String)
      → (any_by (λ p. in_list (update_ability_record s h uid false name) p h) names
          || in_list s name h)
        ≡ (any_by (λ p. in_list s p h) names || in_list s name h)
  any_in_list s h uid name [] = refl
  any_in_list s h uid name (p ∷ names) = elim (Bool-cases (name == p)) [
    | inl e ↦ ground (
      arith,
      any_in_list s h uid name names,
      erased-in_list s h uid name p h,
      e,
      ap (λ q. in_list s q h) (==→eq name p e),
    )
    | inr e ↦ ground (arith, any_in_list s h uid name names, erased-in_list s h uid name p h, e)
  ]

  erased-all_uids :
      (h : ℕ) (uid : ℤ) (names : List String) (s : Service D) (u : ℤ)
      → is_uid_in_processing (update_ability_records h uid false names s) u
        ≡ (is_uid_in_processing s u && not (uid == u && any_by (λ p. in_list s p h) names))
  unfolding update_ability_records
  erased-all_uids h uid [] s u = ground arith
  erased-all_uids h uid (name ∷ names) s u =
      let s' = update_ability_record s h uid false name in
      erased-all_uids h uid names s' u
      ∙ ground (arith, erased-uids s h uid name u, any_in_list s h uid name names)

  module _ (s : Service D) (h : ℕ) (r : Request D) (e : find s h ≡ some r) where
    update_request_record_found :
        (should_insert : Bool)
        → update_request_record s h should_insert
          ≡ update_ability_records h r.uid should_insert (get_proxy_name r) s
    unfolding update_request_record
    update_request_record_found should_insert = ground (arith, e)

    -- UpdateRequestRecord to insert: the request is put into the list of each of its abilities that
    -- has one, and every other list is as it was.
    pub in_list-inserted :
        (n : String) (k : ℕ)
        → in_list (update_request_record s h true) n k
          ≡ (in_list s n k || (any_name (get_proxy_name r) n && (has_list s n && h == k)))
    in_list-inserted n k =
        ap (λ x. in_list x n k) (update_request_record_found true)
        ∙ inserted-in_lists h r.uid (get_proxy_name r) s n k

    -- UpdateRequestRecord to remove: the request leaves the lists of its abilities, and nothing else
    -- leaves a list.
    pub in_list-removed :
        (n : String) (k : ℕ)
        → in_list (update_request_record s h false) n k
          ≡ (in_list s n k && not (any_name (get_proxy_name r) n && h == k))
    in_list-removed n k =
        ap (λ x. in_list x n k) (update_request_record_found false)
        ∙ erased-in_lists h r.uid (get_proxy_name r) s n k

    -- If a request is removed from a list, its uid is running no more, and only its uid, whether or
    -- not the uid has other requests.
    pub is_uid_in_processing-removed :
        (u : ℤ)
        → is_uid_in_processing (update_request_record s h false) u ≡ (
            is_uid_in_processing s u
            && not (r.uid == u && any_by (λ p. in_list s p h) (get_proxy_name r)))
    is_uid_in_processing-removed u =
        ap (λ x. is_uid_in_processing x u) (update_request_record_found false)
        ∙ erased-all_uids h r.uid (get_proxy_name r) s u
