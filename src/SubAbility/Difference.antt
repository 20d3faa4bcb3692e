-- ===== src/SubAbility/Difference.antt =====
-- When `LocationRequest` announces the difference of the records, and what HandleSelfRequest announces
-- to start.
use gitee_oh_base_location.Base.{
  ℕ, List, String, [], any_by, ap, append-nil, arith, false, filter_by, inl, inr, length,
  length-snoc, map, not, pos, refl, snoc_append, subst, sym, true, ℤ, ◌++◌, ◌+◌, ◌∙◌, ◌∷◌, ◌≡◌, ◌⊎◌,
}
use gitee_oh_base_location.WorkRecord.{WorkRecord, get_time_interval}
use gitee_oh_base_location.WorkRecord.Columns.{Row, rows, IsValid}
use gitee_oh_base_location.WorkRecord.Rows.{agrees}
use gitee_oh_base_location.WorkRecord.Copy.{uuid_at}
use gitee_oh_base_location.SubAbility.{
  SubAbility, RequestRecord, location_request, handle_self_request,
}
use gitee_oh_base_location.SubAbility.Announce.{announce, stands, arrivals}
use gitee_oh_base_location.SubAbility.Request.{
  IsSettled, IsUnknown, announcements, location_request_lem, any_by-middle, agrees_self,
  uuid_at-middle, unknown-agrees,
}
use gitee_oh_base_location.SubAbility.SelfRequest.{self_row, handle_self_request_lem}

-- The rows of the one list that do not stand in the other, by uid, name and uuid.
abbrev pub missing_from : List Row → List Row → List Row
missing_from there rs = filter_by (λ r. not (stands there r)) rs

-- The calls that take off the rows that are gone, and then put on those that are new.
abbrev pub differences : List Row → List Row → List RequestRecord
differences last new =
    map (announce false) (missing_from new last) ++ map (announce true) (missing_from last new)

-- Each row that is asked for, from place `i` on, has a uid and name that no row of the last record
-- has, or the uuid of the row of the last record at its own place.
abbrev pub IsAligned : List Row → ℕ → List Row → Type 0
IsAligned last i [] = Unit
IsAligned last i (r ∷ rs) =
    (IsUnknown last r ⊎ (uuid_at last i ≡ r.uuid)) × IsAligned last (i + 1) rs

found-aligned :
    (last : List Row) (i : ℕ) (r : Row)
    → (IsUnknown last r ⊎ (uuid_at last i ≡ r.uuid))
    → any_by (agrees r.uid r.name (uuid_at last i)) last ≡ stands last r
found-aligned last i r (inl u) =
    unknown-agrees last r (uuid_at last i) u ∙ sym (unknown-agrees last r r.uuid u)
found-aligned last i r (inr e) = ap (λ d. any_by (agrees r.uid r.name d) last) e

arrivals-aligned :
    (last : List Row) (i : ℕ) (new : List Row)
    → IsAligned last i new
    → arrivals last i new ≡ missing_from last new
arrivals-aligned last i [] a = refl
arrivals-aligned last i (r ∷ rs) (a, more) =
    rw (found-aligned last i r a, arrivals-aligned last (i + 1) rs more) (ground arith)

pub announcements-aligned :
    (last new : List Row) → IsAligned last 0 new → announcements last new ≡ differences last new
announcements-aligned last new a = rw (arrivals-aligned last 0 new a)

-- Where each row that is asked for has a uid and name that no row of the last record has, or has the
-- uuid of the row of the last record at its own place, a request leaves both records with the rows that
-- were asked for, in a settled state, and announces the difference by uid, name and uuid: first the
-- rows of the last record that are not asked for any more, to take them off, and then the rows asked
-- for that were not in the last record, each list in its order.
pub location_request_difference :
    {Loc : Type 0} (s : SubAbility Loc) (w : WorkRecord)
    → IsSettled s
    → IsValid w
    → IsAligned (rows s.last_record) 0 (rows w)
    → let (s', calls) = location_request s w in
      IsSettled s'
      × (rows s'.last_record ≡ rows w)
      × (rows s'.new_record ≡ rows w)
      × (s'.interval ≡ get_time_interval w (pos 0))
      × (calls ≡ differences (rows s.last_record) (rows w))
location_request_difference s w v h a =
    let (v', l, n, i, e) = location_request_lem s w v h in
    (v', l, n, i, e ∙ announcements-aligned (rows s.last_record) (rows w) a)

uuid_at-end : (last : List Row) → uuid_at last (length last) ≡ ""
uuid_at-end [] = refl
uuid_at-end (r ∷ rs) = uuid_at-end rs

arrivals-appended :
    (pre post : List Row) (r : Row)
    → any_by (agrees r.uid r.name "") (pre ++ post) ≡ false
    → arrivals (pre ++ post) (length pre) (post ++ r ∷ []) ≡ r ∷ []
arrivals-appended pre [] r h = rw (append-nil pre, uuid_at-end pre, rw (append-nil pre) at h) refl
arrivals-appended pre (x ∷ post) r h =
    rw
      (
        uuid_at-middle pre x post,
        any_by-middle (agrees x.uid x.name x.uuid) pre x post (agrees_self x),
        length-snoc pre x,
      )
      (subst (λ xs. arrivals xs (length (pre ++ x ∷ [])) (post ++ r ∷ []) ≡ r ∷ [])
        (snoc_append pre x post)
        (arrivals-appended (pre ++ x ∷ []) post r (
          subst (λ xs. any_by (agrees r.uid r.name "") xs ≡ false) (sym (snoc_append pre x post))
            h)))

departures-appended :
    (pre post tail : List Row) → filter_by (λ r. not (stands (pre ++ (post ++ tail)) r)) post ≡ []
departures-appended pre [] tail = refl
departures-appended pre (x ∷ post) tail =
    rw (any_by-middle (agrees x.uid x.name x.uuid) pre x (post ++ tail) (agrees_self x)) (
      subst (λ xs. filter_by (λ r. not (stands xs r)) post ≡ []) (snoc_append pre x (post ++ tail))
        (departures-appended (pre ++ x ∷ []) post tail))

-- A self request to start, with no row of its uid and the name "ohos" that has an empty uuid, appends
-- its row to the rows of both records, keeps them settled, and announces that row and no other.
pub handle_self_request_start :
    {Loc : Type 0} (s : SubAbility Loc) (pid uid : ℤ) (uuid : String)
    → IsSettled s
    → any_by (agrees uid "ohos" "") (rows s.last_record) ≡ false
    → let (s', calls) = handle_self_request s pid uid true uuid in
      let r = self_row s pid uid uuid in
      IsSettled s'
      × (rows s'.last_record ≡ rows s.last_record ++ r ∷ [])
      × (rows s'.new_record ≡ rows s.last_record ++ r ∷ [])
      × (calls ≡ announce true r ∷ [])
handle_self_request_start s pid uid uuid v h =
    let (v', l, n, e) = handle_self_request_lem s pid uid true uuid v in
    let r = self_row s pid uid uuid in
    (
      v',
      l,
      n,
      e
          ∙ rw (
            departures-appended [] (rows s.last_record) (r ∷ []),
            arrivals-appended [] (rows s.last_record) r h,
          ),
    )
