-- ===== src/SubAbility/Tests.antt =====
-- Runs of a sub-ability, and the witnesses of its properties.
use gitee_oh_base_location.Base.{
  ℕ, List, String, [], any_by, false, int_eq, nat_eq, pos, refl, string_eq, true, ◌==◌, ◌∷◌, ◌≡◌,
  inl, inr, ◌++◌,
}
use gitee_oh_base_location.WorkRecord.{WorkRecord, get_time_interval}
use gitee_oh_base_location.WorkRecord.Columns.{
  Row, columns, rows, IsValid, columns-IsValid, rows-columns,
}
use gitee_oh_base_location.SubAbility.{SubAbility, location_request, handle_self_request}
use gitee_oh_base_location.SubAbility.Announce.{announce}
use gitee_oh_base_location.SubAbility.Request.{IsSettled}
use gitee_oh_base_location.SubAbility.SelfRequest.{self_row, handle_self_request_fresh}
use gitee_oh_base_location.WorkRecord.Rows.{agrees}
use gitee_oh_base_location.SubAbility.Difference.{
  IsAligned, location_request_difference, handle_self_request_start,
}

abbrev row : ℕ → String → String → Row
row uid name uuid = record {
  uid = pos uid;
  pid = pos 7;
  name = name;
  interval = pos 5;
  uuid = uuid;
}

abbrev maps : Row
maps = row 20 "maps" "a"

abbrev maps_again : Row
maps_again = row 20 "maps" "z"

abbrev runs : Row
runs = row 30 "run" "b"

abbrev with_last : List Row → SubAbility ℕ
with_last rs = record {
  interval = pos 1;
  last_record = columns "" rs;
  new_record = columns "" rs;
  mock_time_interval = pos 0;
  mock_enabled = false;
  mock_loc = [];
}

abbrev asked : List Row → WorkRecord
asked rs = columns "dev" rs

with_last-IsSettled : (rs : List Row) → IsSettled (with_last rs)
with_last-IsSettled rs = record {
  last_valid = columns-IsValid "" rs;
  new_valid = columns-IsValid "" rs;
  last_id = refl;
  new_id = refl;
}

valid : (rs : List Row) → IsValid (asked rs)
valid rs = columns-IsValid "dev" rs

-- The row at the second place is unknown, the one at the first stays.
aligned : IsAligned (rows (columns "" (maps ∷ []))) 0 (rows (asked (maps ∷ runs ∷ [])))
unfolding rows
aligned = (inr refl, (inl (refl, tt), tt))

location_request_difference_example :
    let (s', calls) = location_request (with_last (maps ∷ [])) (asked (maps ∷ runs ∷ [])) in
    IsSettled s'
    × (rows s'.last_record ≡ rows (asked (maps ∷ runs ∷ [])))
    × (rows s'.new_record ≡ rows (asked (maps ∷ runs ∷ [])))
    × (s'.interval ≡ get_time_interval (asked (maps ∷ runs ∷ [])) (pos 0))
    × (calls ≡ announce true runs ∷ [])
unfolding rows
location_request_difference_example =
    location_request_difference (with_last (maps ∷ [])) (asked (maps ∷ runs ∷ []))
      (with_last-IsSettled (maps ∷ [])) (valid (maps ∷ runs ∷ [])) aligned

named : any_by (agrees (pos 2) "ohos" "") (rows (with_last (maps ∷ [])).last_record) ≡ false
unfolding rows
named = refl

handle_self_request_start_example :
    let (s', calls) = handle_self_request (with_last (maps ∷ [])) (pos 1) (pos 2) true "q" in
    let r = self_row (with_last (maps ∷ [])) (pos 1) (pos 2) "q" in
    IsSettled s'
    × (rows s'.last_record ≡ rows (with_last (maps ∷ [])).last_record ++ r ∷ [])
    × (rows s'.new_record ≡ rows (with_last (maps ∷ [])).last_record ++ r ∷ [])
    × (calls ≡ announce true r ∷ [])
handle_self_request_start_example =
    handle_self_request_start (with_last (maps ∷ [])) (pos 1) (pos 2) "q"
      (with_last-IsSettled (maps ∷ [])) named

handle_self_request_fresh_example :
    let (s', calls) = handle_self_request (with_last (maps ∷ [])) (pos 1) (pos 2) false "q" in
    (rows s'.last_record ≡ rows (columns "" (maps ∷ []))) × (calls ≡ [])
handle_self_request_fresh_example =
    handle_self_request_fresh (with_last (maps ∷ [])) (pos 1) (pos 2) "q"
      (with_last-IsSettled (maps ∷ [])) fresh
  where
    fresh : any_by (λ r. "q" == r.uuid) (rows (columns "" (maps ∷ []))) ≡ false
    fresh = rw (rows-columns "" (maps ∷ [])) refl
