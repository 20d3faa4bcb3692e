-- ===== src/SubAbility/SelfRequest.antt =====
-- `HandleSelfRequest`, by which the network ability asks for itself.
use gitee_oh_base_location.Base.{
  Bool, List, String, [], any_by, arith, false, int_eq, nat_eq, refl, string_eq, subst, true, ℤ,
  ◌++◌, ◌==◌, ◌∙◌, ◌∷◌, ◌≡◌,
}
use gitee_oh_base_location.WorkRecord.{new_record, set}
use gitee_oh_base_location.WorkRecord.Columns.{
  Row, columns, rows, columns-IsValid, rows-columns, columns-rows,
}
use gitee_oh_base_location.WorkRecord.Rows.{
  agrees, erase_first, erase_first-none, add-columns, remove-columns,
}
use gitee_oh_base_location.WorkRecord.Copy.{set-columns}
use gitee_oh_base_location.SubAbility.{SubAbility, location_request, handle_self_request}
use gitee_oh_base_location.SubAbility.Request.{
  IsSettled, announcements, announcements-same, location_request_lem,
}

-- The row of a self request.
abbrev pub self_row : {Loc : Type 0} → SubAbility Loc → ℤ → ℤ → String → Row
self_row s pid uid uuid = record {
  uid = uid;
  pid = pid;
  name = "ohos";
  interval = s.interval;
  uuid = uuid;
}

-- The rows that a self request asks for.
abbrev pub self_rows : {Loc : Type 0} → SubAbility Loc → ℤ → ℤ → Bool → String → List Row
self_rows s pid uid true uuid = rows s.last_record ++ self_row s pid uid uuid ∷ []
self_rows s pid uid false uuid = erase_first (agrees uid "ohos" uuid) (rows s.last_record)

fresh-agrees :
    (uid : ℤ) (name uuid : String) (rs : List Row)
    → any_by (λ r. uuid == r.uuid) rs ≡ false
    → any_by (agrees uid name uuid) rs ≡ false
fresh-agrees uid name uuid [] h = refl
fresh-agrees uid name uuid (r ∷ rs) h = ground (arith, fresh-agrees uid name uuid rs)

module _ {Loc : Type 0} where
  copied :
      (s : SubAbility Loc)
      → IsSettled s
      → set new_record s.last_record ≡ columns "" (rows s.last_record)
  unfolding new_record
  copied s v =
      subst (λ x. set (columns "" []) x ≡ columns "" (rows s.last_record))
        (columns-rows s.last_record v.last_valid)
        (set-columns "" s.last_record.device_id [] (rows s.last_record))

  self-request-columns :
      (s : SubAbility Loc) (pid uid : ℤ) (state : Bool) (uuid : String)
      → IsSettled s
      → handle_self_request s pid uid state uuid
        ≡ location_request s (columns "" (self_rows s pid uid state uuid))
  unfolding handle_self_request
  self-request-columns s pid uid true uuid v =
      rw (copied s v, add-columns "" (self_row s pid uid uuid) (rows s.last_record))
  self-request-columns s pid uid false uuid v =
      rw (copied s v, remove-columns "" uid pid "ohos" uuid (rows s.last_record))

  -- A self request keeps the records settled and replaces their rows: to start appends the row of the
  -- request, to stop takes off the first row with its uid, name and uuid. What is announced is what
  -- the two loops compare.
  pub handle_self_request_lem :
      (s : SubAbility Loc) (pid uid : ℤ) (state : Bool) (uuid : String)
      → IsSettled s
      → let (s', calls) = handle_self_request s pid uid state uuid in
        IsSettled s'
        × (rows s'.last_record ≡ self_rows s pid uid state uuid)
        × (rows s'.new_record ≡ self_rows s pid uid state uuid)
        × (calls ≡ announcements (rows s.last_record) (self_rows s pid uid state uuid))
  handle_self_request_lem s pid uid state uuid v =
      let rs = self_rows s pid uid state uuid in
      let (v', l, n, _, e) = location_request_lem s (columns "" rs) v (columns-IsValid "" rs) in
      rw (self-request-columns s pid uid state uuid v)
        (v', l ∙ rows-columns "" rs, n ∙ rows-columns "" rs, rw (rows-columns "" rs) at e)

  -- To stop under a uuid that no row has, as a newly drawn one, stops nothing: the rows stay and
  -- nothing is announced.
  pub handle_self_request_fresh :
      (s : SubAbility Loc) (pid uid : ℤ) (uuid : String)
      → IsSettled s
      → any_by (λ r. uuid == r.uuid) (rows s.last_record) ≡ false
      → let (s', calls) = handle_self_request s pid uid false uuid in
        (rows s'.last_record ≡ rows s.last_record) × (calls ≡ [])
  handle_self_request_fresh s pid uid uuid v fresh =
      let (_, l, _, e) = handle_self_request_lem s pid uid false uuid v in
      let same =
        erase_first-none (agrees uid "ohos" uuid) (rows s.last_record)
          (fresh-agrees uid "ohos" uuid (rows s.last_record) fresh) in
      (l ∙ same, e ∙ rw (same, announcements-same (rows s.last_record)))
