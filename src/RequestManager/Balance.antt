-- ===== src/RequestManager/Balance.antt =====
-- The calls of StartUsingPermission and StopUsingPermission against the flags of the requests.
use gitee_oh_base_location.Base.{
  ℕ, Bool, List, Option-cases, [], arith, false, if◌then◌else◌, inl, inr, int_eq, lookup, nat_eq,
  some, string_eq, subst, suc, sym, update, ◌&&◌, ◌++◌, ◌+◌, ◌==◌, ◌∷◌, ◌≡◌,
}
use gitee_oh_base_location.Common.{access_approximately_location}
use gitee_oh_base_location.Env.{Env}
use gitee_oh_base_location.Location.{RequestConfig}
use gitee_oh_base_location.Request.{Request}
use gitee_oh_base_location.RequestManager.{
  Service, Action, start_using_permission, stop_using_permission, find, modify, act,
  update_using_permission, use_permission, find_same,
}
use gitee_oh_base_location.RequestManager.Permission.{
  granted, flagged, update_using_permission_found, update_using_permission_missing,
}

abbrev pub is_start : ℕ → Action → Bool
is_start t (start_using_permission token name) = token == t && name == access_approximately_location
is_start t a = false

abbrev pub is_stop : ℕ → Action → Bool
is_stop t (stop_using_permission token name) = token == t && name == access_approximately_location
is_stop t a = false

abbrev pub count_by {ℓ} : {A : Type ℓ} → (A → Bool) → List A → ℕ
count_by p [] = 0
count_by p (x ∷ xs) = if p x then suc (count_by p xs) else count_by p xs

count_by-snoc {ℓ} :
    {A : Type ℓ} (p : A → Bool) (xs : List A) (x : A)
    → count_by p (xs ++ x ∷ []) ≡ count_by p xs + (if p x then 1 else 0)
count_by-snoc p [] x = ground arith
count_by-snoc p (y ∷ xs) x = ground (arith, count_by-snoc p xs x)

module _ {D : Type 0} where
  -- Whether the request uses its permission, and has the token.
  abbrev pub uses : ℕ → ℕ × Request D → Bool
  uses t (h, r) = r.is_using_approximately_perm && r.token_id == t

  -- For each token, the calls that start the use of the permission are as many as those that stop it
  -- and the requests that use it now.
  abbrev pub IsBalanced : Service D → Type 0
  IsBalanced s =
      (t : ℕ)
      → count_by (is_start t) s.trace ≡ count_by (is_stop t) s.trace + count_by (uses t) s.store

  count_by-update :
      (t h : ℕ) (r r' : Request D) (m : List (ℕ × Request D))
      → lookup h m ≡ some r
      → count_by (uses t) (update h r' m) + (if uses t (h, r) then 1 else 0)
        ≡ count_by (uses t) m + (if uses t (h, r') then 1 else 0)
  count_by-update t h r r' [] e = ground (arith, e)
  count_by-update t h r r' ((k, q) ∷ m) e = ground (arith, e, count_by-update t h r r' m)

  pub same-IsBalanced :
      (s s' : Service D) → s'.store ≡ s.store → s'.trace ≡ s.trace → IsBalanced s → IsBalanced s'
  same-IsBalanced s s' es et v t = rw (es, et) (v t)

  -- A change that keeps the token and the flag.
  pub modify-IsBalanced :
      (s : Service D) (h : ℕ) (r r' : Request D)
      → find s h ≡ some r
      → r'.token_id ≡ r.token_id
      → r'.is_using_approximately_perm ≡ r.is_using_approximately_perm
      → IsBalanced s
      → IsBalanced (modify s h r')
  unfolding find modify
  modify-IsBalanced s h r r' e et ef v t =
      ground (arith, et, ef, v t, count_by-update t h r r' s.store e)

  use_permission-IsBalanced :
      (s : Service D) (h : ℕ) (flag : Bool) (r : Request D)
      → find s h ≡ some r
      → IsBalanced s
      → IsBalanced (
          use_permission s h r.token_id access_approximately_location flag
            r.is_using_approximately_perm
            (flagged r flag))
  unfolding use_permission act find modify
  use_permission-IsBalanced s h flag r e v t = ground (
    arith,
    v t,
    count_by-update t h r (flagged r flag) s.store e,
    string_eq.beq_iff access_approximately_location access_approximately_location,
    count_by-snoc (is_start t) s.trace
        (start_using_permission r.token_id access_approximately_location),
    count_by-snoc (is_stop t) s.trace
        (start_using_permission r.token_id access_approximately_location),
    count_by-snoc (is_start t) s.trace
        (stop_using_permission r.token_id access_approximately_location),
    count_by-snoc (is_stop t) s.trace
        (stop_using_permission r.token_id access_approximately_location),
  )

  pub update_using_permission-IsBalanced :
      (env : Env) (s : Service D) (h : ℕ)
      → IsBalanced s
      → IsBalanced (update_using_permission env s h)
  update_using_permission-IsBalanced env s h v = elim (Option-cases (find s h)) [
    | inl e ↦ rw (update_using_permission_missing env s h e) v
    | inr (r, e) ↦
        subst IsBalanced (sym (update_using_permission_found env s h r e))
          (use_permission-IsBalanced s h (granted env s r) r e v)
  ]

  pub act-IsBalanced :
      (s : Service D) (a : Action)
      → ((t : ℕ) → (is_start t a ≡ false) × (is_stop t a ≡ false))
      → IsBalanced s
      → IsBalanced (act s a)
  unfolding act
  act-IsBalanced s a other v t = ground (
    arith,
    v t,
    other t,
    count_by-snoc (is_start t) s.trace a,
    count_by-snoc (is_stop t) s.trace a,
  )

  pub find_same-find :
      (s : Service D) (config : RequestConfig D) (hs : List ℕ) (k : ℕ) (old : Request D)
      → find_same s config hs ≡ some (k, old)
      → find s k ≡ some old
  unfolding find_same
  find_same-find s config [] k old e = ground (arith, e)
  find_same-find s config (h ∷ hs) k old e = ground (arith, e, find_same-find s config hs k old)
