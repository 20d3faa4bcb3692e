-- ===== src/WorkRecord/Rows.antt =====
-- What each method of work_record.cpp does to the rows.
use gitee_oh_base_location.Base.{
  Bool, Bool-cases, List, String, [], any_by, ap, arith, erase_idx, false, if◌then◌else◌, inl, inr,
  int_eq, length, length-append, length-map, ltb, map, map-append, nat_eq, refl, string_eq, suc,
  true, zero, ℕ, ℤ, ◌&&◌, ◌++◌, ◌-◌, ◌==◌, ◌∷◌, ◌≡◌, ◌≤◌,
}
use gitee_oh_base_location.WorkRecord.{
  add, remove, remove_name, find, clear, match_index, name_index, erase_found, erase_row,
}
use gitee_oh_base_location.WorkRecord.Columns.{Row, columns}

-- The row that `Find` and `Remove` look for: the pid is not part of the key.
abbrev pub agrees : ℤ → String → String → Row → Bool
agrees uid name uuid r = r.uid == uid && (name == r.name && uuid == r.uuid)

abbrev pub named : String → Row → Bool
named name r = r.name == name

-- The list without its first element that passes the test.
abbrev pub erase_first {ℓ} : {A : Type ℓ} → (A → Bool) → List A → List A
erase_first p [] = []
erase_first p (x ∷ xs) = if p x then xs else x ∷ erase_first p xs

abbrev index_by {ℓ} : {A : Type ℓ} → (A → Bool) → List A → ℕ
index_by p [] = 0
index_by p (x ∷ xs) = if p x then 0 else suc (index_by p xs)

module _ {ℓ} {A : Type ℓ} (p : A → Bool) where
  erase_idx-index_by : (xs : List A) → erase_idx xs (index_by p xs) ≡ erase_first p xs
  erase_idx-index_by [] = refl
  erase_idx-index_by (x ∷ xs) = ground (arith, erase_idx-index_by xs)

  index_by-le : (xs : List A) → index_by p xs ≤ length xs
  index_by-le [] = omega arith
  index_by-le (x ∷ xs) = ground (arith, index_by-le xs)

  ltb-index_by : (xs : List A) → ltb (index_by p xs) (length xs) ≡ any_by p xs
  ltb-index_by [] = refl
  ltb-index_by (x ∷ xs) = ground (arith, ltb-index_by xs)

  pub erase_first-none : (xs : List A) → any_by p xs ≡ false → erase_first p xs ≡ xs
  erase_first-none [] h = refl
  erase_first-none (x ∷ xs) h = ground (arith, erase_first-none xs)

  length-erase_first :
      (xs : List A) → any_by p xs ≡ true → length (erase_first p xs) ≡ length xs - 1
  length-erase_first [] h = refl
  length-erase_first (x ∷ []) h = ground arith
  length-erase_first (x ∷ y ∷ xs) h = ground (arith, length-erase_first (y ∷ xs))

erase_idx-map {ℓ κ} :
    {A : Type ℓ} {B : Type κ} (f : A → B) (xs : List A) (i : ℕ)
    → erase_idx (map f xs) i ≡ map f (erase_idx xs i)
erase_idx-map f [] i = refl
erase_idx-map f (x ∷ xs) zero = refl
erase_idx-map f (x ∷ xs) (suc i) = ap (◌∷◌ (f x)) (erase_idx-map f xs i)

match_index-rows :
    (uid : ℤ) (name uuid : String) (rs : List Row)
    → match_index uid name uuid (map (λ r. r.uid) rs) (map (λ r. r.name) rs) (map (λ r. r.uuid) rs)
      ≡ index_by (agrees uid name uuid) rs
unfolding match_index
match_index-rows uid name uuid [] = refl
match_index-rows uid name uuid (r ∷ rs) = rw (match_index-rows uid name uuid rs)

name_index-rows :
    (name : String) (rs : List Row)
    → name_index name (map (λ r. r.name) rs) ≡ index_by (named name) rs
unfolding name_index
name_index-rows name [] = refl
name_index-rows name (r ∷ rs) = rw (name_index-rows name rs)

erase_row-columns :
    (p : Row → Bool) (id : String) (rs : List Row)
    → any_by p rs ≡ true
    → erase_row (columns id rs) (index_by p rs) ≡ columns id (erase_first p rs)
unfolding erase_row
erase_row-columns p id rs found = rw (
  erase_idx-map,
  erase_idx-map,
  erase_idx-map,
  erase_idx-map,
  erase_idx-map,
  erase_idx-index_by p rs,
  ← length-erase_first p rs found,
)

-- Erasing the row at the index of the first match.
erase_found-columns :
    (p : Row → Bool) (id : String) (rs : List Row)
    → erase_found (columns id rs) (length rs) (index_by p rs)
      ≡ (columns id (erase_first p rs), any_by p rs)
unfolding erase_found
erase_found-columns p id rs = elim (Bool-cases (any_by p rs)) [
  | inl found ↦ ground (arith, erase_row-columns p id rs found, ltb-index_by p rs)
  | inr missing ↦ ground (arith, erase_first-none p rs missing, ltb-index_by p rs, index_by-le p rs)
]

==-suc_zero : (n : ℕ) → (suc n == 0) ≡ false
==-suc_zero n = ground arith

module _ (id : String) where
  pub remove-columns :
      (uid pid : ℤ) (name uuid : String) (rs : List Row)
      → remove (columns id rs) uid pid name uuid
        ≡ (columns id (erase_first (agrees uid name uuid) rs), any_by (agrees uid name uuid) rs)
  unfolding remove
  remove-columns uid pid name uuid [] = refl
  remove-columns uid pid name uuid (r ∷ rs) =
      rw
        (
          length-map (λ (x : Row). x.uid) (r ∷ rs),
          ==-suc_zero,
          match_index-rows uid name uuid (r ∷ rs),
        )
        (erase_found-columns (agrees uid name uuid) id (r ∷ rs))

  pub remove_name-columns :
      (name : String) (rs : List Row)
      → remove_name (columns id rs) name
        ≡ (columns id (erase_first (named name) rs), any_by (named name) rs)
  unfolding remove_name
  remove_name-columns name [] = refl
  remove_name-columns name (r ∷ rs) =
      rw
        (
          length-map (λ (x : Row). x.uid) (r ∷ rs),
          ==-suc_zero,
          length-map (λ (x : Row). x.name) (r ∷ rs),
          name_index-rows name (r ∷ rs),
        )
        (erase_found-columns (named name) id (r ∷ rs))

  pub find-columns :
      (uid : ℤ) (name uuid : String) (rs : List Row)
      → find (columns id rs) uid name uuid ≡ any_by (agrees uid name uuid) rs
  unfolding find
  find-columns uid name uuid [] = refl
  find-columns uid name uuid (r ∷ rs) =
      rw
        (
          length-map (λ (x : Row). x.uid) (r ∷ rs),
          ==-suc_zero,
          match_index-rows uid name uuid (r ∷ rs),
        )
        (ltb-index_by (agrees uid name uuid) (r ∷ rs))

  pub add-columns :
      (r : Row) (rs : List Row)
      → add (columns id rs) r.uid r.pid r.name r.interval r.uuid ≡ columns id (rs ++ r ∷ [])
  unfolding add
  add-columns r rs =
      rw (length-append rs (r ∷ []), map-append, map-append, map-append, map-append, map-append)

  pub clear-columns : (rs : List Row) → clear (columns id rs) ≡ columns id []
  unfolding clear
  clear-columns rs = refl
