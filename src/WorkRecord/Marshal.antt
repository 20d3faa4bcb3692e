-- ===== src/WorkRecord/Marshal.antt =====
-- WorkRecord::Marshalling, ReadFromParcel and Unmarshalling of work_record.cpp, over any parcel.
use gitee_oh_base_location.Base.{
  List, String, get_or, if◌then◌else◌, ltb, negsuc, pos, suc, zero, ℕ, ℤ, ◌+◌,
}
use gitee_oh_base_location.Parcel.{ParcelOps, int32, string, string16}
use gitee_oh_base_location.WorkRecord.{WorkRecord, new_record, add, set_device_id}

abbrev pub max_record_count : ℕ
max_record_count = 100

module _ {D : Type 0} (o : ParcelOps D) where
  open o use {P, write, read_int32, read_string}

  -- Rows `i` to `i + rounds - 1`.
  unfoldable pub write_rows : WorkRecord → ℕ → ℕ → P → P
  write_rows w zero i p = p
  write_rows w (suc rounds) i p =
      let p = write (int32 (get_or w.uids i (pos 0))) p in
      let p = write (int32 (get_or w.pids i (pos 0))) p in
      let p = write (string (get_or w.names i "")) p in
      let p = write (int32 (get_or w.time_interval i (pos 0))) p in
      let p = write (string (get_or w.uuid i "")) p in write_rows w rounds (i + 1) p

  unfoldable pub marshalling : WorkRecord → P → P
  marshalling w p = write (string w.device_id) (write_rows w w.num 0 (write (int32 (pos w.num)) p))

  unfoldable pub write_uids : List ℤ → ℕ → ℕ → P → P
  write_uids uids zero i p = p
  write_uids uids (suc rounds) i p =
      write_uids uids rounds (i + 1) (write (int32 (get_or uids i (pos 0))) p)

  unfoldable pub write_names : List String → ℕ → ℕ → P → P
  write_names names zero i p = p
  write_names names (suc rounds) i p =
      write_names names rounds (i + 1) (write (string16 (get_or names i "")) p)

  unfoldable pub marshalling_work_record : WorkRecord → P → P
  marshalling_work_record w p =
      let p = write (int32 (pos w.num)) p in
      let p = write_uids w.uids w.num 0 (write (int32 (pos w.num)) p) in
      write_names w.names w.num 0 (write (int32 (pos w.num)) p)

  unfoldable pub read_rows : ℕ → WorkRecord → P → WorkRecord × P
  read_rows zero w p = (w, p)
  read_rows (suc rounds) w p =
      let (uid, p₁) = read_int32 p in
      let (pid, p₂) = read_int32 p₁ in
      let (name, p₃) = read_string p₂ in
      let (time_interval, p₄) = read_int32 p₃ in
      let (uuid, p₅) = read_string p₄ in read_rows rounds (add w uid pid name time_interval uuid) p₅

  -- The number of rounds of `for (int i = 0; i < num; i++)` after the cut to MAX_RECORD_COUNT.
  unfoldable pub record_count : ℤ → ℕ
  record_count (pos n) = if ltb max_record_count n then max_record_count else n
  record_count (negsuc n) = 0

  unfoldable pub read_from_parcel : WorkRecord → P → WorkRecord × P
  read_from_parcel w p =
      let (num, p₁) = read_int32 p in
      let (w', p₂) = read_rows (record_count num) w p₁ in
      let (id, p₃) = read_string p₂ in (set_device_id w' id, p₃)

  unfoldable pub unmarshalling : P → WorkRecord × P
  unmarshalling p = read_from_parcel new_record p
