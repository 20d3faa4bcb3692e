-- ===== src/Background/Suspend.antt =====
-- What UpdateListOnSuspend does to the list of a user.
use gitee_oh_base_location.Base.{
  ℕ, Bool, List, Option, String, [], arith, if◌then◌else◌, int_eq, lookup, nat_eq, not, pos, some,
  string_eq, ℤ, ◌&&◌, ◌++◌, ◌+◌, ◌==◌, ◌||◌, ◌∷◌, ◌≡◌, ◌≤◌, ==→eq, Bool-cases, inl, inr,
  lookup-update, refl, update,
}
use gitee_oh_base_location.Env.{Env}
use gitee_oh_base_location.Request.{Request}
use gitee_oh_base_location.Background.{
  Background, check_permission, app_requests, check_max_request_num, suspended_list,
  update_list_on_suspend, contains, remove_all, requests_num_max, list_of,
}

pub contains-remove_all :
    (h k : ℕ) (rs : List ℕ) → contains (remove_all h rs) k ≡ (not (h == k) && contains rs k)
contains-remove_all h k [] = ground arith
contains-remove_all h k (r ∷ rs) =
    ground (
      arith,
      contains-remove_all h k rs,
      nat_eq.beq_iff r h,
      nat_eq.beq_iff h k,
      nat_eq.beq_iff r k,
    )

pub contains-snoc : (h k : ℕ) (rs : List ℕ) → contains (rs ++ h ∷ []) k ≡ (contains rs k || h == k)
contains-snoc h k [] = ground arith
contains-snoc h k (r ∷ rs) = ground (arith, contains-snoc h k rs)

list_of-update :
    (b b' : Background) (own list : ℕ) (rs new : List ℕ)
    → b'.lists ≡ update own new b.lists
    → lookup own b.lists ≡ some rs
    → list_of b' list ≡ (if own == list then new else list_of b list)
unfolding list_of
list_of-update b b' own list rs new e has = rw e (elim (Bool-cases (own == list)) [
  | inl same ↦
      rw (==→eq own list same)
        (ground (arith, lookup-update list list new b.lists, rw (==→eq own list same) at has))
  | inr other ↦ ground (arith, other, lookup-update own list new b.lists)
])

module _ {D : Type 0} where
  contains-suspended_list :
      (env : Env) (b : Background) (find : ℕ → Option (Request D)) (h k : ℕ) (r : Request D)
      (active : Bool) (rs : List ℕ)
      → contains (suspended_list env b find h r active rs) k ≡ (
          if h == k
          then not active
            && (check_permission env r
                && (contains rs h
                    || ((r.config.fix_number == pos 0)
                        && check_max_request_num env b find r.uid r.package_name)))
          else contains rs k)
  unfolding suspended_list
  contains-suspended_list env b find h k r active rs =
      ground (arith, contains-remove_all h k rs, contains-snoc h k rs, nat_eq.beq_iff h k)

  lists-update_list_on_suspend :
      (env : Env) (b : Background) (find : ℕ → Option (Request D)) (h : ℕ) (r : Request D)
      (active : Bool) (own : ℕ)
      → lookup (env.user_id r.uid) b.requests_map ≡ some own
      → (update_list_on_suspend env b find h r active).lists
        ≡ update own (suspended_list env b find h r active (list_of b own)) b.lists
  unfolding update_list_on_suspend
  lists-update_list_on_suspend env b find h r active own m = ground (arith, m)

  list_of-update_list_on_suspend :
      (env : Env) (b : Background) (find : ℕ → Option (Request D)) (h : ℕ) (r : Request D)
      (active : Bool) (own list : ℕ) (rs : List ℕ)
      → lookup (env.user_id r.uid) b.requests_map ≡ some own
      → lookup own b.lists ≡ some rs
      → list_of (update_list_on_suspend env b find h r active) list ≡ (
          if own == list
          then suspended_list env b find h r active (list_of b own)
          else list_of b list)
  list_of-update_list_on_suspend env b find h r active own list rs m has =
      list_of-update b (update_list_on_suspend env b find h r active) own list rs
        (suspended_list env b find h r active (list_of b own))
        (lists-update_list_on_suspend env b find h r active own m) has

  -- After UpdateListOnSuspend for a request whose user has a list, that list has the request exactly
  -- if its app is frozen and permitted, and it was there before or asks for no fixed number of fixes
  -- and is within the limit. Every other request is in that list exactly if it was, and the lists of
  -- the other users are as they were.
  pub contains-update_list_on_suspend :
      (env : Env) (b : Background) (find : ℕ → Option (Request D)) (h k : ℕ) (r : Request D)
      (active : Bool) (own list : ℕ) (rs : List ℕ)
      → lookup (env.user_id r.uid) b.requests_map ≡ some own
      → lookup own b.lists ≡ some rs
      → contains (list_of (update_list_on_suspend env b find h r active) list) k ≡ (
          if own == list && h == k
          then not active
            && (check_permission env r
                && (contains (list_of b own) h
                    || ((r.config.fix_number == pos 0)
                        && check_max_request_num env b find r.uid r.package_name)))
          else contains (list_of b list) k)
  contains-update_list_on_suspend env b find h k r active own list rs m has =
      let listed = list_of-update_list_on_suspend env b find h r active own list rs m has in
      let held = contains-suspended_list env b find h k r active (list_of b own) in
      rw listed (elim (Bool-cases (own == list)) [
        | inl e ↦ rw (e, held, ==→eq own list e) (ground arith)
        | inr e ↦ rw e refl
      ])

  app_requests-remove_all :
      (find : ℕ → Option (Request D)) (uid : ℤ) (name : String) (h : ℕ) (rs : List ℕ)
      → app_requests find uid name (remove_all h rs) ≤ app_requests find uid name rs
  unfolding app_requests
  app_requests-remove_all find uid name h [] = ground arith
  app_requests-remove_all find uid name h (r ∷ rs) =
      ground (arith, app_requests-remove_all find uid name h rs)

  app_requests-snoc :
      (find : ℕ → Option (Request D)) (uid : ℤ) (name : String) (h : ℕ) (rs : List ℕ)
      → app_requests find uid name (rs ++ h ∷ [])
        ≡ app_requests find uid name rs + app_requests find uid name (h ∷ [])
  unfolding app_requests
  app_requests-snoc find uid name h [] = ground arith
  app_requests-snoc find uid name h (r ∷ rs) = ground (arith, app_requests-snoc find uid name h rs)

  abbrev pub IsWithinLimit : (ℕ → Option (Request D)) → List ℕ → Type 0
  IsWithinLimit find rs =
      (uid : ℤ) (name : String) → app_requests find uid name rs ≤ requests_num_max

  pub remove_all-IsWithinLimit :
      (find : ℕ → Option (Request D)) (h : ℕ) (rs : List ℕ)
      → IsWithinLimit find rs
      → IsWithinLimit find (remove_all h rs)
  remove_all-IsWithinLimit find h rs v uid name =
      ground (arith, app_requests-remove_all find uid name h rs, v uid name)

  pub suspended_list-IsWithinLimit :
      (env : Env) (b : Background) (find : ℕ → Option (Request D)) (h : ℕ) (r r' : Request D)
      (active : Bool) (list : ℕ)
      → find h ≡ some r'
      → r.uid ≡ r'.uid
      → r.package_name ≡ r'.package_name
      → lookup (env.user_id r.uid) b.requests_map ≡ some list
      → IsWithinLimit find (list_of b list)
      → IsWithinLimit find (suspended_list env b find h r active (list_of b list))
  unfolding suspended_list app_requests check_max_request_num
  suspended_list-IsWithinLimit env b find h r r' active list e eu en m v uid name = ground (
    arith,
    app_requests-remove_all find uid name h (list_of b list),
    app_requests-snoc find uid name h (list_of b list),
    v uid name,
    e,
    eu,
    en,
    m,
    int_eq.beq_iff r'.uid uid,
    string_eq.beq_iff name r'.package_name,
  )
