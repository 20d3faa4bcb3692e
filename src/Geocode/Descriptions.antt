-- ===== src/Geocode/Descriptions.antt =====
-- The descriptions of an address in a parcel.
use gitee_oh_base_location.Base.{
  ℕ, List, String, [], append-nil, append_assoc, arith, length, pos, refl, suc, sym, ℤ, ◌++◌, ◌<◌,
  ◌∷◌, ◌≡◌, ◌≤◌,
}
use gitee_oh_base_location.Parcel.{ParcelOps, Cell, int32, string16}
use gitee_oh_base_location.Geocode.{
  insert_description, larger_size, read_descriptions, write_descriptions,
}

-- The indexes ascend, from `n` on, and are less than 100: what the reading loop accepts.
pub data IsReadable : ℕ → List (ℤ × String) → Type 0 where
  readable_nil : {n : ℕ} → IsReadable n []
  readable_cons :
      {n : ℕ} {rest : List (ℤ × String)} (k : ℕ) (line : String)
      → n ≤ k
      → k < 100
      → IsReadable (suc k) rest
      → IsReadable n ((pos k, line) ∷ rest)

-- All indexes are less than `n`.
data IsBelow : ℕ → List (ℤ × String) → Type 0 where
  below_nil : {n : ℕ} → IsBelow n []
  below_cons :
      {n : ℕ} {rest : List (ℤ × String)} (k : ℕ) (line : String)
      → k < n
      → IsBelow n rest
      → IsBelow n ((pos k, line) ∷ rest)

IsBelow-weaken : {m n : ℕ} {ds : List (ℤ × String)} → m ≤ n → IsBelow m ds → IsBelow n ds
IsBelow-weaken le below_nil = below_nil
IsBelow-weaken le (below_cons k line lt b) = below_cons k line (omega arith) (IsBelow-weaken le b)

IsBelow-snoc :
    {n : ℕ} {ds : List (ℤ × String)} (k : ℕ) (line : String)
    → n ≤ k
    → IsBelow n ds
    → IsBelow (suc k) (ds ++ (pos k, line) ∷ [])
IsBelow-snoc k line le below_nil = below_cons k line (omega arith) below_nil
IsBelow-snoc k line le (below_cons j other lt b) =
    below_cons j other (omega arith) (IsBelow-snoc k line le b)

insert_description-below :
    {n : ℕ} {ds : List (ℤ × String)} (k : ℕ) (line : String)
    → n ≤ k
    → IsBelow n ds
    → insert_description (pos k) line ds ≡ ds ++ (pos k, line) ∷ []
unfolding insert_description
insert_description-below k line le below_nil = refl
insert_description-below k line le (below_cons j other lt b) =
    ground (arith, insert_description-below k line le b)

-- The size of the descriptions after `ds` have been read.
abbrev pub size_after : ℤ → List (ℤ × String) → ℤ
size_after size [] = size
size_after size (entry ∷ rest) = size_after (larger_size size entry.0) rest

module _ {D : Type 0} where
  abbrev pub description_cells : List (ℤ × String) → List (Cell D) → List (Cell D)
  description_cells [] cs = cs
  description_cells (entry ∷ rest) cs = int32 entry.0 ∷ string16 entry.1 ∷ description_cells rest cs

  pub description_cells-append :
      (ds : List (ℤ × String)) (cs es : List (Cell D))
      → description_cells ds cs ++ es ≡ description_cells ds (cs ++ es)
  description_cells-append [] cs es = refl
  description_cells-append (entry ∷ rest) cs es = rw (description_cells-append rest cs es)

module _ {D : Type 0} (o : ParcelOps D) where
  open o use {P, contents, contents-write, front_int32, front_string16}

  pub contents-write_descriptions :
      (ds : List (ℤ × String)) (p : P)
      → contents (write_descriptions o ds p) ≡ contents p ++ description_cells ds []
  unfolding write_descriptions
  contents-write_descriptions [] p = sym (append-nil _)
  contents-write_descriptions (entry ∷ rest) p =
      rw (
        contents-write_descriptions rest,
        contents-write,
        contents-write,
        append_assoc,
        append_assoc,
      )

  read_descriptions-suc :
      (n k : ℕ) (line : String) (ds : List (ℤ × String)) (size : ℤ) (p : P) (cs : List (Cell D))
      → k < 100
      → contents p ≡ int32 (pos k) ∷ string16 line ∷ cs
      → (p' : P) × (read_descriptions o (suc n) ds size p
          ≡ read_descriptions o n
              (insert_description (pos k) line ds)
              (larger_size size (pos k))
              p')
        × (contents p' ≡ cs)
  unfolding read_descriptions
  read_descriptions-suc n k line ds size p cs lt h =
      let (e₁, h₁) = front_int32 (pos k) _ p h in
      let (e₂, h₂) = front_string16 line _ _ h₁ in (_, rw (e₁, e₂) (ground arith), h₂)

  -- Descriptions that stand in front of a parcel are put behind those that are there.
  read_descriptions-cells :
      {n : ℕ} (ds acc : List (ℤ × String)) (size : ℤ) (p : P) (cs : List (Cell D))
      → IsBelow n acc
      → IsReadable n ds
      → contents p ≡ description_cells ds cs
      → let read = read_descriptions o (length ds) acc size p in
        (read.0 ≡ (acc ++ ds, size_after size ds)) × (contents read.1 ≡ cs)
  unfolding read_descriptions
  read_descriptions-cells [] acc size p cs b readable_nil h = (rw append-nil, h)
  read_descriptions-cells (_ ∷ rest) acc size p cs b (readable_cons k line le lt r) h =
      let (p', e, h') = read_descriptions-suc (length rest) k line acc size p _ lt h in
      let ih =
        read_descriptions-cells rest (acc ++ (pos k, line) ∷ []) (larger_size size (pos k)) p' cs
          (IsBelow-snoc k line le b) r h' in
      rw (e, insert_description-below k line le b, ← append_assoc acc ((pos k, line) ∷ []) rest) ih

  -- An empty map takes the descriptions over.
  pub read_descriptions-readable :
      (ds : List (ℤ × String)) (p : P) (cs : List (Cell D))
      → IsReadable 0 ds
      → contents p ≡ description_cells ds cs
      → let read = read_descriptions o (length ds) [] (pos 0) p in
        (read.0 ≡ (ds, size_after (pos 0) ds)) × (contents read.1 ≡ cs)
  read_descriptions-readable ds p cs r h = read_descriptions-cells ds [] (pos 0) p cs below_nil r h
