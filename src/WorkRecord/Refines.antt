-- ===== src/WorkRecord/Refines.antt =====
-- work_record.cpp against its specification: a list of rows with its methods.
use gitee_oh_base_location.Base.{
  Bool, List, String, [], any_by, arith, int_eq, length, nat_eq, refl, string_eq, true, ℤ, ◌++◌,
  ◌==◌, ◌↔◌, ◌∷◌, ◌≡◌, ap,
}
use gitee_oh_base_location.WorkRecord.{
  WorkRecord, add, remove, remove_name, find, clear, set, size, is_empty,
}
use gitee_oh_base_location.WorkRecord.Columns.{
  Row, columns, rows, IsValid, columns-IsValid, rows-columns, IsValid_ind,
}
use gitee_oh_base_location.WorkRecord.Rows.{
  agrees, named, erase_first, remove-columns, remove_name-columns, find-columns, add-columns,
}
use gitee_oh_base_location.WorkRecord.Copy.{set-columns}

-- The methods that change a record.
pub data Call : Type 0 where
  adds : Row → Call
  removes : (uid pid : ℤ) (name uuid : String) → Call
  removes_name : (name : String) → Call
  clears : Call
  sets : (other : WorkRecord) → IsValid other → Call

-- The new record, and what the method returns; `Clear` and `Set` return nothing.
unfoldable pub call : WorkRecord → Call → WorkRecord × Bool
call w (adds r) = (add w r.uid r.pid r.name r.interval r.uuid, true)
call w (removes uid pid name uuid) = remove w uid pid name uuid
call w (removes_name name) = remove_name w name
call w clears = (clear w, true)
call w (sets other _) = (set w other, true)

-- The same on a list of rows.
abbrev pub spec : List Row → Call → List Row × Bool
spec rs (adds r) = (rs ++ r ∷ [], true)
spec rs (removes uid pid name uuid) =
    (erase_first (agrees uid name uuid) rs, any_by (agrees uid name uuid) rs)
spec rs (removes_name name) = (erase_first (named name) rs, any_by (named name) rs)
spec rs clears = ([], true)
spec rs (sets other _) = (rows other, true)

set-valid :
    (id : String) (rs : List Row) (other : WorkRecord)
    → IsValid other
    → set (columns id rs) other ≡ columns id (rows other)
set-valid id rs other v =
    IsValid_ind (λ x rs'. set (columns id rs) x ≡ columns id rs') (λ id'. set-columns id id' rs)
      other v

call-columns :
    (id : String) (rs : List Row) (c : Call)
    → call (columns id rs) c ≡ (columns id (spec rs c).0, (spec rs c).1)
unfolding call clear
call-columns id rs (adds r) = rw (add-columns id r rs)
call-columns id rs (removes uid pid name uuid) = remove-columns id uid pid name uuid rs
call-columns id rs (removes_name name) = remove_name-columns id name rs
call-columns id rs clears = refl
call-columns id rs (sets other v) = ap (λ x. (x, true)) (set-valid id rs other v)

-- On a valid record each method does to the rows what the specification says, returns what it
-- says, keeps the device id, and leaves a valid record.
pub call_refines :
    (w : WorkRecord) (c : Call)
    → IsValid w
    → IsValid (call w c).0
      × (rows (call w c).0 ≡ (spec (rows w) c).0)
      × ((call w c).1 ≡ (spec (rows w) c).1)
      × ((call w c).0.device_id ≡ w.device_id)
call_refines w c v =
    IsValid_ind
      (λ x rs.
        IsValid (call x c).0
        × (rows (call x c).0 ≡ (spec rs c).0)
        × ((call x c).1 ≡ (spec rs c).1)
        × ((call x c).0.device_id ≡ x.device_id))
      (λ id rs.
        rw (call-columns id rs c)
          (columns-IsValid id (spec rs c).0, rows-columns id (spec rs c).0, refl, refl))
      w v

-- The queries read the rows.
pub query_refines :
    (w : WorkRecord) (uid : ℤ) (name uuid : String)
    → IsValid w
    → (find w uid name uuid ≡ any_by (agrees uid name uuid) (rows w))
      × (size w ≡ length (rows w))
      × ((is_empty w ≡ true) ↔ (rows w ≡ []))
unfolding size is_empty
query_refines w uid name uuid v =
    IsValid_ind
      (λ x rs.
        (find x uid name uuid ≡ any_by (agrees uid name uuid) rs)
        × (x.num ≡ length rs)
        × (((x.num == 0) ≡ true) ↔ (rs ≡ [])))
      (λ id rs. (find-columns id uid name uuid rs, refl, empty_iff rs)) w v
  where
    empty_iff : (rs : List Row) → ((length rs == 0) ≡ true) ↔ (rs ≡ [])
    empty_iff [] = (λ _. refl, λ _. refl)
    empty_iff (r ∷ rs) = (λ h. ground arith, λ h. ground arith)

unfoldable pub calls : WorkRecord → List Call → WorkRecord
calls w [] = w
calls w (c ∷ cs) = calls (call w c).0 cs

abbrev pub specs : List Row → List Call → List Row
specs rs [] = rs
specs rs (c ∷ cs) = specs (spec rs c).0 cs

-- A history of calls.
pub calls_refine :
    (w : WorkRecord) (cs : List Call)
    → IsValid w
    → IsValid (calls w cs) × (rows (calls w cs) ≡ specs (rows w) cs)
unfolding calls
calls_refine w [] v = (v, refl)
calls_refine w (c ∷ cs) v =
    let (v', e, _, _) = call_refines w c v in rw (← e) (calls_refine (call w c).0 cs v')
