-- ===== src/SubAbility/Request.antt =====
-- The calls that one `LocationRequest` makes, and the records that it leaves.
use gitee_oh_base_location.Base.{
  ℕ, List, String, [], false, filter_by, map, not, pos, refl, true, ℤ, ◌++◌, ◌≡◌, ==_refl, Bool,
  any_by, arith, get_or-middle, length, length-map, length-snoc, map-append, ◌∷◌, int_eq, nat_eq,
  snoc_append, string_eq, subst, ◌&&◌, ◌+◌, ◌==◌,
}
use gitee_oh_base_location.WorkRecord.{WorkRecord, clear, size, get_time_interval}
use gitee_oh_base_location.WorkRecord.Columns.{
  Row, columns, rows, IsValid, columns-IsValid, rows-columns, columns-rows,
}
use gitee_oh_base_location.WorkRecord.Rows.{agrees}
use gitee_oh_base_location.WorkRecord.Copy.{set-columns, uuid_at}
use gitee_oh_base_location.SubAbility.{
  SubAbility, RequestRecord, handle_remove_record, handle_add_record, handle_local_request,
  handle_refrash_requirements, location_request,
}
use gitee_oh_base_location.SubAbility.Announce.{
  announce, stands, arrivals, remove_calls-rows, add_calls-rows,
}

-- Both records are valid, and have no device id, since `Set` copies none.
pub record IsSettled {Loc : Type 0} (s : SubAbility Loc) : Type 0 where
  pub last_valid : IsValid s.last_record
  pub new_valid : IsValid s.new_record
  pub last_id : s.last_record.device_id ≡ ""
  pub new_id : s.new_record.device_id ≡ ""

-- The rows of the last record that are gone, and then those that the second loop takes for arrivals.
abbrev pub announcements : List Row → List Row → List RequestRecord
announcements last new =
    map (announce false) (filter_by (λ r. not (stands new r)) last)
    ++ map (announce true) (arrivals last 0 new)

module _ {Loc : Type 0} where
  abbrev with_rows : SubAbility Loc → ℤ → List Row → List Row → SubAbility Loc
  with_rows s interval last new = record s {
    interval = interval;
    last_record = columns "" last;
    new_record = columns "" new;
  }

  location_request-columns :
      (s : SubAbility Loc) (i : ℤ) (last new ws : List Row) (id : String)
      → location_request (with_rows s i last new) (columns id ws)
        ≡ (with_rows s (get_time_interval (columns id ws) (pos 0)) ws ws, announcements last ws)
  unfolding location_request handle_refrash_requirements handle_local_request handle_remove_record
      handle_add_record clear size
  location_request-columns s i last new ws id =
      rw
        (
          set-columns "" id [] ws,
          set-columns "" "" [] ws,
          remove_calls-rows "" "" ws [] last,
          add_calls-rows "" "" last [] ws,
        )
        refl

  settled-columns :
      (s : SubAbility Loc)
      → IsSettled s
      → with_rows s s.interval (rows s.last_record) (rows s.new_record) ≡ s
  settled-columns s v = cc (
    columns-rows s.last_record v.last_valid,
    columns-rows s.new_record v.new_valid,
    v.last_id,
    v.new_id,
  )

  location_request-settled :
      (s : SubAbility Loc) (w : WorkRecord)
      → IsSettled s
      → IsValid w
      → location_request s w ≡ (
        with_rows s (get_time_interval w (pos 0)) (rows w) (rows w),
        announcements (rows s.last_record) (rows w),
      )
  location_request-settled s w v h = cc (
    location_request-columns s s.interval (rows s.last_record) (rows s.new_record) (rows w)
        w.device_id,
    settled-columns s v,
    columns-rows w h,
  )

  -- A request leaves both records with the rows that were asked for, in a settled state; it
  -- announces the rows of the last record that are not asked for any more, by uid, name and uuid,
  -- and then the rows that the second loop takes for arrivals, under the uuids of the last record.
  pub location_request_lem :
      (s : SubAbility Loc) (w : WorkRecord)
      → IsSettled s
      → IsValid w
      → let (s', calls) = location_request s w in
        IsSettled s'
        × (rows s'.last_record ≡ rows w)
        × (rows s'.new_record ≡ rows w)
        × (s'.interval ≡ get_time_interval w (pos 0))
        × (calls ≡ announcements (rows s.last_record) (rows w))
  location_request_lem s w v h =
      rw (location_request-settled s w v h)
        (settled, rows-columns "" (rows w), rows-columns "" (rows w), refl, refl)
    where
      settled : IsSettled (with_rows s (get_time_interval w (pos 0)) (rows w) (rows w))
      settled = record {
        last_valid = columns-IsValid "" (rows w);
        new_valid = columns-IsValid "" (rows w);
        last_id = refl;
        new_id = refl;
      }

-- Asking again for the same rows announces nothing.
pub any_by-middle {ℓ} :
    {A : Type ℓ} (p : A → Bool) (xs : List A) (x : A) (ys : List A)
    → p x ≡ true
    → any_by p (xs ++ x ∷ ys) ≡ true
any_by-middle p [] x ys h = rw h refl
any_by-middle p (y ∷ xs) x ys h = rw (any_by-middle p xs x ys h) (ground arith)

pub agrees_self : (r : Row) → agrees r.uid r.name r.uuid r ≡ true
agrees_self r = ground (arith, ==_refl r.uid, ==_refl r.name, ==_refl r.uuid)

pub uuid_at-middle :
    (pre : List Row) (r : Row) (post : List Row) → uuid_at (pre ++ r ∷ post) (length pre) ≡ r.uuid
uuid_at-middle pre r post =
    rw (map-append, ← length-map (λ (x : Row). x.uuid) pre)
      (get_or-middle (map (λ x. x.uuid) pre) r.uuid (map (λ x. x.uuid) post) "")

arrivals-same : (pre post : List Row) → arrivals (pre ++ post) (length pre) post ≡ []
arrivals-same pre [] = refl
arrivals-same pre (r ∷ post) =
    rw
      (
        uuid_at-middle pre r post,
        any_by-middle (agrees r.uid r.name r.uuid) pre r post (agrees_self r),
        length-snoc pre r,
      )
      (subst (λ xs. arrivals xs (length (pre ++ r ∷ [])) post ≡ []) (snoc_append pre r post)
        (arrivals-same (pre ++ r ∷ []) post))

departures-same : (pre post : List Row) → filter_by (λ r. not (stands (pre ++ post) r)) post ≡ []
departures-same pre [] = refl
departures-same pre (r ∷ post) =
    rw (any_by-middle (agrees r.uid r.name r.uuid) pre r post (agrees_self r)) (
      subst (λ xs. filter_by (λ x. not (stands xs x)) post ≡ []) (snoc_append pre r post)
        (departures-same (pre ++ r ∷ []) post))

pub announcements-same : (rs : List Row) → announcements rs rs ≡ []
announcements-same rs = rw (arrivals-same [] rs, departures-same [] rs)

-- The same request twice in a row: the second announces nothing and changes no row.
pub location_request_again :
    {Loc : Type 0} (s : SubAbility Loc) (w : WorkRecord)
    → IsSettled s
    → IsValid w
    → location_request (location_request s w).0 w ≡ ((location_request s w).0, [])
location_request_again s w v h =
    let s' = (location_request s w).0 in
    let (v', l, n, i, _) = location_request_lem s w v h in
    cc (location_request-settled s' w v' h, settled-columns s' v', announcements-same (rows w))

-- No row of `last` has the uid and the name of `r`.
abbrev pub IsUnknown : List Row → Row → Type 0
IsUnknown [] r = Unit
IsUnknown (x ∷ xs) r = ((x.uid == r.uid && r.name == x.name) ≡ false) × IsUnknown xs r

abbrev pub AllUnknown : List Row → List Row → Type 0
AllUnknown last [] = Unit
AllUnknown last (r ∷ rs) = IsUnknown last r × AllUnknown last rs

pub unknown-agrees :
    (last : List Row) (r : Row) (uuid : String)
    → IsUnknown last r
    → any_by (agrees r.uid r.name uuid) last ≡ false
unknown-agrees [] r uuid u = refl
unknown-agrees (x ∷ xs) r uuid u = ground (arith, unknown-agrees xs r uuid u.1)

arrivals-unknown :
    (last : List Row) (i : ℕ) (new : List Row) → AllUnknown last new → arrivals last i new ≡ new
arrivals-unknown last i [] u = refl
arrivals-unknown last i (r ∷ rs) u =
    rw (unknown-agrees last r (uuid_at last i) u.0, arrivals-unknown last (i + 1) rs u.1)

-- Where no row that is asked for has the uid and name of a row of the last record, all of them are
-- announced, behind the departures.
pub location_request_unknown :
    {Loc : Type 0} (s : SubAbility Loc) (w : WorkRecord)
    → IsSettled s
    → IsValid w
    → AllUnknown (rows s.last_record) (rows w)
    → (location_request s w).1
      ≡ map (announce false) (filter_by (λ r. not (stands (rows w) r)) (rows s.last_record))
        ++ map (announce true) (rows w)
location_request_unknown s w v h u =
    let (_, _, _, _, e) = location_request_lem s w v h in
    rw (e, arrivals-unknown (rows s.last_record) 0 (rows w) u)
