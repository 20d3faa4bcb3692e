-- ===== src/SubAbility/Announce.antt =====
-- Which rows `LocationRequest` announces to an ability.
use gitee_oh_base_location.Base.{
  ℕ, Bool, List, String, [], any_by, false, filter_by, length, map, not, refl, ◌++◌, ◌∷◌, ◌≡◌,
  append_assoc, arith, if◌then◌else◌, length-snoc, suc, true, ◌+◌,
}
use gitee_oh_base_location.WorkRecord.{new_record, add, set_device_id, get_device_id}
use gitee_oh_base_location.WorkRecord.Columns.{Row, columns}
use gitee_oh_base_location.WorkRecord.Rows.{agrees, find-columns}
use gitee_oh_base_location.WorkRecord.Copy.{get-row, get_uuid-at, uuid_at}
use gitee_oh_base_location.SubAbility.{RequestRecord, single_row, remove_calls, add_calls}

-- The announcement of one row.
abbrev pub announce : Bool → Row → RequestRecord
announce is_added r = record { work_record = columns "" (r ∷ []); is_added = is_added }

single_row-row :
    (id id' : String) (pre : List Row) (r : Row) (post new : List Row)
    → single_row (columns id (pre ++ r ∷ post)) (columns id' new) (length pre)
      ≡ columns id' (r ∷ [])
unfolding single_row set_device_id get_device_id add new_record
single_row-row id id' pre r post new =
    let (u, p, n, t, d) = get-row id pre r post in rw (u, p, n, t, d)

-- The row stands in the list, by uid, name and uuid.
abbrev pub stands : List Row → Row → Bool
stands rs r = any_by (agrees r.uid r.name r.uuid) rs

module _ (id id' : String) (new : List Row) where
  abbrev removal : Row → RequestRecord
  removal r = record { work_record = columns id' (r ∷ []); is_added = false }

  remove_calls-suc :
      (pre : List Row) (r : Row) (post : List Row) (n : ℕ)
      → remove_calls (columns id (pre ++ r ∷ post)) (columns id' new) (suc n) (length pre) ≡ (
          let rest =
            remove_calls (columns id (pre ++ r ∷ post)) (columns id' new) n (length pre + 1) in
          if not (stands new r) then removal r ∷ rest else rest)
  unfolding remove_calls
  remove_calls-suc pre r post n =
      let (u, _, m, _, d) = get-row id pre r post in
      rw (single_row-row id id' pre r post new, u, m, d, find-columns id' r.uid r.name r.uuid new)

  pub remove_calls-rows :
      (pre post : List Row)
      → remove_calls (columns id (pre ++ post)) (columns id' new) (length post) (length pre)
        ≡ map removal (filter_by (λ r. not (stands new r)) post)
  unfolding remove_calls
  remove_calls-rows pre [] = refl
  remove_calls-rows pre (r ∷ post) =
      rw
        (
          remove_calls-suc pre r post (length post),
          length-snoc pre r,
          ← append_assoc pre (r ∷ []) post,
          remove_calls-rows (pre ++ r ∷ []) post,
        )
        (ground arith)

-- The rows that the second loop announces: row `i` is compared under the uuid of row `i` of the
-- last record.
abbrev pub arrivals : List Row → ℕ → List Row → List Row
arrivals last i [] = []
arrivals last i (r ∷ rs) =
    if not (any_by (agrees r.uid r.name (uuid_at last i)) last)
    then r ∷ arrivals last (i + 1) rs
    else arrivals last (i + 1) rs

module _ (id id' : String) (last : List Row) where
  abbrev arrival : Row → RequestRecord
  arrival r = record { work_record = columns id' (r ∷ []); is_added = true }

  add_calls-suc :
      (pre : List Row) (r : Row) (post : List Row) (n : ℕ)
      → add_calls (columns id last) (columns id' (pre ++ r ∷ post)) (suc n) (length pre) ≡ (
          let rest =
            add_calls (columns id last) (columns id' (pre ++ r ∷ post)) n (length pre + 1) in
          if not (any_by (agrees r.uid r.name (uuid_at last (length pre))) last)
          then arrival r ∷ rest
          else rest)
  unfolding add_calls
  add_calls-suc pre r post n =
      let (u, _, m, _, _) = get-row id' pre r post in
      rw (
        single_row-row id' id' pre r post (pre ++ r ∷ post),
        u,
        m,
        get_uuid-at id last (length pre),
        find-columns id r.uid r.name (uuid_at last (length pre)) last,
      )

  pub add_calls-rows :
      (pre post : List Row)
      → add_calls (columns id last) (columns id' (pre ++ post)) (length post) (length pre)
        ≡ map arrival (arrivals last (length pre) post)
  unfolding add_calls
  add_calls-rows pre [] = refl
  add_calls-rows pre (r ∷ post) =
      rw
        (
          add_calls-suc pre r post (length post),
          length-snoc pre r,
          ← append_assoc pre (r ∷ []) post,
          add_calls-rows (pre ++ r ∷ []) post,
        )
        (ground arith)
