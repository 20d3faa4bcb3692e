-- ===== src/WorkRecord/Tests.antt =====
-- Runs of the work record, and the witnesses of its properties.
use gitee_oh_base_location.Base.{
  List, String, [], arith, false, negsuc, pos, refl, suc, take, true, zero, ℕ, ◌∷◌, ◌≡◌,
}
use gitee_oh_base_location.Parcel.{ParcelOps}
use gitee_oh_base_location.Parcel.Queue.{queue}
use gitee_oh_base_location.WorkRecord.{
  WorkRecord, new_record, add, remove, remove_name, find, clear, get_uid, get_name,
  get_time_interval, match_index, name_index, erase_found, erase_row, at_index,
}
use gitee_oh_base_location.WorkRecord.Columns.{Row, columns, rows, IsValid, columns-IsValid}
use gitee_oh_base_location.WorkRecord.Refines.{Call, call, calls, spec, adds, removes, call_refines}
use gitee_oh_base_location.WorkRecord.Marshal.{marshalling, unmarshalling}
use gitee_oh_base_location.WorkRecord.RoundTrip.{unmarshalling-marshalling, unmarshalling_cuts}

abbrev row : ℕ → String → String → Row
row uid name uuid = record {
  uid = pos uid;
  pid = pos 7;
  name = name;
  interval = pos 5;
  uuid = uuid;
}

abbrev two : List Row
two = row 20 "maps" "a" ∷ row 30 "run" "b" ∷ []

abbrev two_record : WorkRecord
two_record = columns "dev" two

program : Unit {0}
unfolding add remove remove_name find get_uid get_name get_time_interval match_index name_index
    erase_found erase_row at_index call calls new_record clear rows
program = tt

-- The pid that is given does not matter.
remove_test :
    remove two_record (pos 30) (pos 99) "run" "b" ≡ (columns "dev" (row 20 "maps" "a" ∷ []), true)
unfolding program
remove_test = refl

remove_missing : remove two_record (pos 30) (pos 7) "run" "c" ≡ (two_record, false)
unfolding program
remove_missing = refl

get_test :
    (get_uid two_record (pos 1) ≡ pos 30)
    × (get_uid two_record (pos 2) ≡ negsuc 0)
    × (get_name two_record (negsuc 4) ≡ "")
unfolding program
get_test = (refl, refl, refl)

two-IsValid : IsValid two_record
two-IsValid = columns-IsValid "dev" two

call_refines_example :
    IsValid (call two_record (removes (pos 20) (pos 1) "maps" "a")).0
    × (rows (call two_record (removes (pos 20) (pos 1) "maps" "a")).0
        ≡ (spec (rows two_record) (removes (pos 20) (pos 1) "maps" "a")).0)
    × ((call two_record (removes (pos 20) (pos 1) "maps" "a")).1
        ≡ (spec (rows two_record) (removes (pos 20) (pos 1) "maps" "a")).1)
    × ((call two_record (removes (pos 20) (pos 1) "maps" "a")).0.device_id ≡ "dev")
call_refines_example = call_refines two_record (removes (pos 20) (pos 1) "maps" "a") two-IsValid

abbrev history : List Call
history = adds (row 40 "car" "c") ∷ removes (pos 20) (pos 7) "maps" "a" ∷ []

abbrev parcels : ParcelOps ℕ
parcels = queue 0

unmarshalling-marshalling_example :
    ((unmarshalling parcels (marshalling parcels two_record [])).0 ≡ two_record)
    × ((unmarshalling parcels (marshalling parcels two_record [])).1 ≡ [])
unmarshalling-marshalling_example =
    unmarshalling-marshalling parcels two_record [] two-IsValid (omega arith) refl

repeat : ℕ → Row → List Row
repeat zero r = []
repeat (suc n) r = r ∷ repeat n r

many : WorkRecord
many = columns "dev" (repeat 101 (row 1 "a" "b"))

unmarshalling_cuts_example :
    rows (unmarshalling parcels (marshalling parcels many [])).0 ≡ take 100 (rows many)
unfolding many repeat
unmarshalling_cuts_example =
    unmarshalling_cuts parcels many [] (columns-IsValid "dev" (repeat 101 (row 1 "a" "b")))
      (omega arith) refl
