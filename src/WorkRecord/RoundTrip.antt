-- ===== src/WorkRecord/RoundTrip.antt =====
-- Writing a work record into a parcel and reading it back.
use gitee_oh_base_location.Base.{
  List, String, [], ap, append-nil, append_assoc, arith, drop, drop_all, get_or, get_or-middle,
  length, length-map, length-snoc, map, map-append, pos, refl, subst, suc, sym, take, take_all,
  zero, ℕ, ◌++◌, ◌+◌, ◌<◌, ◌∙◌, ◌∷◌, ◌≡◌, ◌≤◌,
}
use gitee_oh_base_location.Parcel.{ParcelOps, Cell, int32, string}
use gitee_oh_base_location.WorkRecord.{WorkRecord, new_record, add, set_device_id}
use gitee_oh_base_location.WorkRecord.Columns.{
  Row, columns, rows, IsValid, columns-rows, rows-columns,
}
use gitee_oh_base_location.WorkRecord.Rows.{add-columns}
use gitee_oh_base_location.WorkRecord.Marshal.{
  write_rows, marshalling, read_rows, record_count, read_from_parcel, unmarshalling,
  max_record_count,
}

module _ {D : Type 0} where
  abbrev pub row_cells : Row → List (Cell D) → List (Cell D)
  row_cells r cs = int32 r.uid ∷ int32 r.pid ∷ string r.name ∷ int32 r.interval ∷ string r.uuid ∷ cs

  -- The rows, and then the cells `cs`.
  abbrev pub rows_cells : List Row → List (Cell D) → List (Cell D)
  rows_cells [] cs = cs
  rows_cells (r ∷ rs) cs = row_cells r (rows_cells rs cs)

  -- What a record looks like in a parcel, with the cells `cs` behind it.
  abbrev pub record_cells : String → List Row → List (Cell D) → List (Cell D)
  record_cells id rs cs = int32 (pos (length rs)) ∷ rows_cells rs (string id ∷ cs)

  rows_cells-append :
      (rs : List Row) (cs ds : List (Cell D)) → rows_cells rs cs ++ ds ≡ rows_cells rs (cs ++ ds)
  rows_cells-append [] cs ds = refl
  rows_cells-append (r ∷ rs) cs ds = rw (rows_cells-append rs cs ds)

module _ {D : Type 0} (o : ParcelOps D) where
  open o use {P, contents, write, contents-write, front_int32, front_string}

  column-middle {ℓ} :
      {A : Type ℓ} (f : Row → A) (pre : List Row) (r : Row) (post : List Row) (d : A)
      → get_or (map f (pre ++ r ∷ post)) (length pre) d ≡ f r
  column-middle f pre r post d =
      rw (map-append, ← length-map f pre) (get_or-middle (map f pre) (f r) (map f post) d)

  write_rows-suc :
      (id : String) (pre : List Row) (r : Row) (post : List Row) (n : ℕ) (p : P)
      → write_rows o (columns id (pre ++ r ∷ post)) (suc n) (length pre) p
        ≡ write_rows o (columns id (pre ++ r ∷ post)) n (length pre + 1) (
            write (string r.uuid) (
              write
                (int32 r.interval)
                (write (string r.name) (write (int32 r.pid) (write (int32 r.uid) p)))))
  unfolding write_rows
  write_rows-suc id pre r post n p = rw (
    column-middle (λ x. x.uid) pre r post _,
    column-middle (λ x. x.pid) pre r post _,
    column-middle (λ x. x.name) pre r post _,
    column-middle (λ x. x.interval) pre r post _,
    column-middle (λ x. x.uuid) pre r post _,
  )

  contents-row :
      (r : Row) (p : P)
      → contents (
          write (string r.uuid) (
            write
              (int32 r.interval)
              (write (string r.name) (write (int32 r.pid) (write (int32 r.uid) p)))))
        ≡ contents p ++ row_cells r []
  contents-row r p = simp (contents-write, append_assoc)

  contents-write_rows :
      (id : String) (pre post : List Row) (p : P)
      → contents (write_rows o (columns id (pre ++ post)) (length post) (length pre) p)
        ≡ contents p ++ rows_cells post []
  unfolding write_rows
  contents-write_rows id pre [] p = sym (append-nil _)
  contents-write_rows id pre (r ∷ post) p = rw (
    write_rows-suc id pre r post,
    length-snoc pre r,
    ← append_assoc pre (r ∷ []) post,
    contents-write_rows id (pre ++ r ∷ []) post,
    contents-row r,
    append_assoc,
  )

  pub contents-marshalling :
      (id : String) (rs : List Row) (p : P)
      → contents (marshalling o (columns id rs) p) ≡ contents p ++ record_cells id rs []
  unfolding marshalling
  contents-marshalling id rs p = rw (
    contents-write,
    contents-write_rows id [] rs,
    contents-write,
    append_assoc,
    append_assoc,
    rows_cells-append rs [],
  )

  -- One round of the reading loop, and then all of them: `n` rows are taken from the front.
  read_rows-suc :
      (r : Row) (n : ℕ) (w : WorkRecord) (p : P) (cs : List (Cell D))
      → contents p ≡ row_cells r cs
      → (p' : P) × (read_rows o (suc n) w p
          ≡ read_rows o n (add w r.uid r.pid r.name r.interval r.uuid) p')
        × (contents p' ≡ cs)
  unfolding read_rows
  read_rows-suc r n w p cs h =
      let (u, h₁) = front_int32 r.uid _ p h in
      let (i, h₂) = front_int32 r.pid _ _ h₁ in
      let (m, h₃) = front_string r.name _ _ h₂ in
      let (t, h₄) = front_int32 r.interval _ _ h₃ in
      let (d, h₅) = front_string r.uuid _ _ h₄ in (_, rw (u, i, m, t, d) refl, h₅)

  read_rows-cells :
      (n : ℕ) (rs acc : List Row) (id : String) (p : P) (cs : List (Cell D))
      → n ≤ length rs
      → contents p ≡ rows_cells rs cs
      → ((read_rows o n (columns id acc) p).0 ≡ columns id (acc ++ take n rs))
        × (contents (read_rows o n (columns id acc) p).1 ≡ rows_cells (drop n rs) cs)
  unfolding read_rows
  read_rows-cells zero rs acc id p cs le h = (rw append-nil, h)
  read_rows-cells (suc n) [] acc id p cs le h = absurd (omega arith)
  read_rows-cells (suc n) (r ∷ rs) acc id p cs le h =
      let (p', e, h') = read_rows-suc r n (columns id acc) p _ h in
      let ih = read_rows-cells n rs (acc ++ r ∷ []) id p' cs (omega arith) h' in
      rw (e, add-columns id r acc, ← append_assoc acc (r ∷ []) (take n rs)) ih

  -- Reading a record that stands in front of a parcel: the count is cut to 100.
  unmarshalling-rows :
      (id : String) (rs : List Row) (p : P) (cs : List (Cell D))
      → contents p ≡ record_cells id rs cs
      → let n = record_count o (pos (length rs)) in
        n ≤ length rs
        → (p' : P) × ((unmarshalling o p).0
            ≡ set_device_id (columns "" (take n rs)) (o.read_string p').0)
          × ((unmarshalling o p).1 ≡ (o.read_string p').1)
          × (contents p' ≡ rows_cells (drop n rs) (string id ∷ cs))
  unfolding unmarshalling read_from_parcel new_record
  unmarshalling-rows id rs p cs h le =
      let (n, h₁) = front_int32 (pos (length rs)) _ p h in
      let (r, h₂) =
        read_rows-cells (record_count o (pos (length rs))) rs [] "" _ (string id ∷ cs) le h₁ in
      (_, rw (n, r) refl, rw n refl, h₂)

  -- What is written is read back, up to the cut of the count, which must not be past the rows.
  read_written :
      (id : String) (rs : List Row) (p : P)
      → contents p ≡ []
      → contents (marshalling o (columns id rs) p) ≡ record_cells id rs []
  read_written id rs p empty = contents-marshalling id rs p ∙ rw empty

  round_trip-columns :
      (id : String) (rs : List Row) (p : P)
      → contents p ≡ []
      → length rs ≤ max_record_count
      → let q = marshalling o (columns id rs) p in
        ((unmarshalling o q).0 ≡ columns id rs) × (contents (unmarshalling o q).1 ≡ [])
  unfolding record_count set_device_id
  round_trip-columns id rs p empty le =
      let all : record_count o (pos (length rs)) ≡ length rs = ground arith in
      let (p', e, e', h) =
        unmarshalling-rows id rs _ [] (read_written id rs p empty) (omega (arith, all)) in
      let (s, h₂) = front_string id [] p' (h ∙ rw (all, drop_all rs)) in
      (e ∙ rw (all, take_all rs, s), rw e' h₂)

  truncated-columns :
      (id : String) (rs : List Row) (p : P)
      → contents p ≡ []
      → max_record_count < length rs
      → rows (unmarshalling o (marshalling o (columns id rs) p)).0 ≡ take max_record_count rs
  unfolding record_count set_device_id
  truncated-columns id rs p empty lt =
      let cut : record_count o (pos (length rs)) ≡ max_record_count = ground arith in
      let (p', e, e', h) =
        unmarshalling-rows id rs _ [] (read_written id rs p empty) (omega (arith, cut)) in
      rw (e, cut) (rows-columns _ (take max_record_count rs))

  -- A valid record of at most 100 rows, written into an empty parcel, is read back as it was, with
  -- its device id, and nothing is left in the parcel.
  pub unmarshalling-marshalling :
      (w : WorkRecord) (p : P)
      → IsValid w
      → w.num ≤ max_record_count
      → contents p ≡ []
      → ((unmarshalling o (marshalling o w p)).0 ≡ w)
        × (contents (unmarshalling o (marshalling o w p)).1 ≡ [])
  unmarshalling-marshalling w p v le empty =
      let c = columns-rows w v in
      let h = round_trip-columns w.device_id (rows w) p empty (omega (arith, ap (λ x. x.num) c)) in
      rw c at h

  -- Of a valid record of more than 100 rows, written into an empty parcel, the first 100 rows are
  -- read back.
  pub unmarshalling_cuts :
      (w : WorkRecord) (p : P)
      → IsValid w
      → max_record_count < w.num
      → contents p ≡ []
      → rows (unmarshalling o (marshalling o w p)).0 ≡ take max_record_count (rows w)
  unmarshalling_cuts w p v lt empty =
      let c = columns-rows w v in
      let h = truncated-columns w.device_id (rows w) p empty (omega (arith, ap (λ x. x.num) c)) in
      subst (λ x. rows (unmarshalling o (marshalling o x p)).0 ≡ take max_record_count (rows w)) c h
