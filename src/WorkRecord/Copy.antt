-- ===== src/WorkRecord/Copy.antt =====
-- `Set`: the copy of another record, row by row.
use gitee_oh_base_location.Base.{
  List, String, [], append-nil, append_assoc, arith, get_or-middle, length, length-append,
  length-map, length-snoc, lt→ltb, map, map-append, pos, refl, suc, ℕ, ◌++◌, ◌+◌, ◌∙◌, ◌∷◌, ◌≡◌,
  get_or, zero, ◌≤◌,
}
use gitee_oh_base_location.WorkRecord.{
  WorkRecord, add, clear, set, size, get_uid, get_pid, get_name, get_time_interval, get_uuid,
  copy_rows, at_index,
}
use gitee_oh_base_location.WorkRecord.Columns.{Row, columns}
use gitee_oh_base_location.WorkRecord.Rows.{add-columns}

-- A getter's test and read at the row behind `pre`.
at_index-row {ℓ} :
    {A : Type ℓ} (f : Row → A) (pre : List Row) (r : Row) (post : List Row) (d : A)
    → at_index (length (pre ++ r ∷ post)) (map f (pre ++ r ∷ post)) d (pos (length pre)) ≡ f r
unfolding at_index
at_index-row f pre r post d =
    rw
      (
        lt→ltb (length pre) (length (pre ++ r ∷ post))
            (omega (arith, length-append pre (r ∷ post))),
        map-append,
        ← length-map f pre,
      )
      (get_or-middle (map f pre) (f r) (map f post) d)

pub get-row :
    (id : String) (pre : List Row) (r : Row) (post : List Row)
    → let w = columns id (pre ++ r ∷ post) in
      let i = pos (length pre) in
      (get_uid w i ≡ r.uid)
      × (get_pid w i ≡ r.pid)
      × (get_name w i ≡ r.name)
      × (get_time_interval w i ≡ r.interval)
      × (get_uuid w i ≡ r.uuid)
unfolding get_uid get_pid get_name get_time_interval get_uuid
get-row id pre r post = (
  at_index-row (λ x. x.uid) pre r post _,
  at_index-row (λ x. x.pid) pre r post _,
  at_index-row (λ x. x.name) pre r post _,
  at_index-row (λ x. x.interval) pre r post _,
  at_index-row (λ x. x.uuid) pre r post _,
)

copy_rows-suc :
    (other : WorkRecord) (rounds i : ℕ) (w : WorkRecord)
    → copy_rows other (suc rounds) i w
      ≡ copy_rows other rounds (i + 1) (
          add w
            (get_uid other (pos i))
            (get_pid other (pos i))
            (get_name other (pos i))
            (get_time_interval other (pos i))
            (get_uuid other (pos i)))
unfolding copy_rows
copy_rows-suc other rounds i w = refl

copy_rows-zero : (other : WorkRecord) (i : ℕ) (w : WorkRecord) → copy_rows other 0 i w ≡ w
unfolding copy_rows
copy_rows-zero other i w = refl

copy_rows-columns :
    (id id' : String) (acc pre post : List Row)
    → copy_rows (columns id' (pre ++ post)) (length post) (length pre) (columns id acc)
      ≡ columns id (acc ++ post)
copy_rows-columns id id' acc pre [] = rw (append-nil, append-nil) (copy_rows-zero _ _ _)
copy_rows-columns id id' acc pre (r ∷ post) =
    let (u, p, n, t, d) = get-row id' pre r post in
    copy_rows-suc _ (length post) (length pre) _
    ∙ rw
        (
          u,
          p,
          n,
          t,
          d,
          add-columns id r acc,
          length-snoc pre r,
          ← append_assoc pre (r ∷ []) post,
          ← append_assoc acc (r ∷ []) post,
        )
        (copy_rows-columns id id' (acc ++ r ∷ []) (pre ++ r ∷ []) post)

-- `Set` leaves the device id alone.
pub set-columns :
    (id id' : String) (rs rs' : List Row) → set (columns id rs) (columns id' rs') ≡ columns id rs'
unfolding set size clear
set-columns id id' rs rs' = copy_rows-columns id id' [] [] rs'

-- The uuid at any index: that of the row there, and "" past the end.
abbrev pub uuid_at : List Row → ℕ → String
uuid_at rs i = get_or (map (λ r. r.uuid) rs) i ""

get_or-past {ℓ} : {A : Type ℓ} (xs : List A) (i : ℕ) (d : A) → length xs ≤ i → get_or xs i d ≡ d
get_or-past [] i d h = refl
get_or-past (x ∷ xs) zero d h = absurd (omega arith)
get_or-past (x ∷ xs) (suc i) d h = get_or-past xs i d (omega arith)

pub get_uuid-at :
    (id : String) (rs : List Row) (i : ℕ) → get_uuid (columns id rs) (pos i) ≡ uuid_at rs i
unfolding get_uuid at_index
get_uuid-at id rs i =
    ground
      (arith, get_or-past (map (λ (r : Row). r.uuid) rs) i "", length-map (λ (r : Row). r.uuid) rs)
