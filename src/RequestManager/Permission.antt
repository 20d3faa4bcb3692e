-- ===== src/RequestManager/Permission.antt =====
-- The flag that says that a request uses its permission for approximate locations.
use gitee_oh_base_location.Base.{
  ℕ, Bool, arith, if◌then◌else◌, int_eq, lookup-update, nat_eq, none, some, string_eq, ◌&&◌, ◌==◌,
  ◌≡◌, String, ap, sym,
}
use gitee_oh_base_location.Common.{access_approximately_location, check_approximately_permission}
use gitee_oh_base_location.Env.{Env}
use gitee_oh_base_location.Request.{Request}
use gitee_oh_base_location.RequestManager.{
  Service, find, modify, act, is_uid_in_processing, update_using_approximately_permission,
  use_permission, update_using_permission,
}

module _ {D : Type 0} where
  abbrev pub granted : Env → Service D → Request D → Bool
  granted env s r =
      is_uid_in_processing s r.uid
      && check_approximately_permission env.tokens r.token_id r.first_token_id

  -- The request with its flag set.
  abbrev pub flagged : Request D → Bool → Request D
  flagged r flag = record r { is_using_approximately_perm = flag }

  pub find-modify :
      (s : Service D) (h k : ℕ) (r : Request D)
      → find (modify s h r) k
        ≡ (if h == k then elim (find s k) [ none ↦ none | some q ↦ some r ] else find s k)
  unfolding find modify
  find-modify s h k r = lookup-update h k r s.store

  pub update_using_permission_missing :
      (env : Env) (s : Service D) (h : ℕ) → find s h ≡ none → update_using_permission env s h ≡ s
  unfolding update_using_permission update_using_approximately_permission
  update_using_permission_missing env s h e = ground (arith, e)

  -- What is done to a request that is there.
  pub update_using_permission_found :
      (env : Env) (s : Service D) (h : ℕ) (r : Request D)
      → find s h ≡ some r
      → update_using_permission env s h
        ≡ use_permission s h r.token_id access_approximately_location
            (granted env s r)
            r.is_using_approximately_perm
            (flagged r (granted env s r))
  unfolding update_using_permission update_using_approximately_permission
  update_using_permission_found env s h r e = ground (arith, e)

  flagged_same :
      (r : Request D) (flag : Bool) → r.is_using_approximately_perm ≡ flag → flagged r flag ≡ r
  flagged_same r flag e = ap (flagged r) (sym e)

  find-use_permission :
      (s : Service D) (h k token : ℕ) (name : String) (flag : Bool) (r : Request D)
      → find s h ≡ some r
      → find (use_permission s h token name flag r.is_using_approximately_perm (flagged r flag)) k
        ≡ (if h == k then some (flagged r flag) else find s k)
  unfolding use_permission act find modify
  find-use_permission s h k token name flag r e = ground (
    arith,
    e,
    flagged_same r flag,
    lookup-update h k (flagged r flag) s.store,
    nat_eq.beq_iff h k,
  )

  -- After UpdateUsingPermission a request is marked as using its permission exactly if its uid is
  -- among the running ones and it has the permission; no other request and nothing else in it changes.
  pub find-update_using_permission :
      (env : Env) (s : Service D) (h k : ℕ) (r : Request D)
      → find s h ≡ some r
      → find (update_using_permission env s h) k
        ≡ (if h == k then some (flagged r (granted env s r)) else find s k)
  find-update_using_permission env s h k r e =
      rw (update_using_permission_found env s h r e)
        (find-use_permission s h k r.token_id access_approximately_location (granted env s r) r e)
