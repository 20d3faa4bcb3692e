-- ===== src/Parcel.antt =====
-- The `Parcel` that objects are marshalled into (a system library, not part of the repository).
-- It is a queue of typed cells: what is written goes to the end, and a read of the type that stands
-- in front takes that cell. What a read of another type, or of an empty parcel, gives is left open.
pub mod Queue
use gitee_oh_base_location.Base.{ℕ, Option, Bool, List, String, [], ℤ, ◌++◌, ◌∷◌, ◌≡◌}

-- A `double` or a `float` is a value of the parameter `D`.
pub data Cell (D : Type 0) : Type 0 where
  int32 : ℤ → Cell D
  int64 : ℤ → Cell D
  bool : Bool → Cell D
  double : D → Cell D
  float : D → Cell D
  string : String → Cell D
  string16 : String → Cell D
  -- A remote object is named by a number; `none` is null.
  remote_object : Option ℕ → Cell D

pub record ParcelOps (D : Type 0) : Type 1 where
  pub P : Type 0
  pub contents : P → List (Cell D)
  pub write : Cell D → P → P
  pub read_int32 : P → ℤ × P
  pub read_int64 : P → ℤ × P
  pub read_bool : P → Bool × P
  pub read_double : P → D × P
  pub read_float : P → D × P
  pub read_string : P → String × P
  pub read_string16 : P → String × P
  pub read_remote_object : P → Option ℕ × P
  pub contents-write : (c : Cell D) (p : P) → contents (write c p) ≡ contents p ++ c ∷ []
  pub front_int32 :
      (n : ℤ) (cs : List (Cell D)) (p : P)
      → contents p ≡ int32 n ∷ cs
      → ((read_int32 p).0 ≡ n) × (contents (read_int32 p).1 ≡ cs)
  pub front_int64 :
      (n : ℤ) (cs : List (Cell D)) (p : P)
      → contents p ≡ int64 n ∷ cs
      → ((read_int64 p).0 ≡ n) × (contents (read_int64 p).1 ≡ cs)
  pub front_bool :
      (b : Bool) (cs : List (Cell D)) (p : P)
      → contents p ≡ bool b ∷ cs
      → ((read_bool p).0 ≡ b) × (contents (read_bool p).1 ≡ cs)
  pub front_double :
      (d : D) (cs : List (Cell D)) (p : P)
      → contents p ≡ double d ∷ cs
      → ((read_double p).0 ≡ d) × (contents (read_double p).1 ≡ cs)
  pub front_float :
      (d : D) (cs : List (Cell D)) (p : P)
      → contents p ≡ float d ∷ cs
      → ((read_float p).0 ≡ d) × (contents (read_float p).1 ≡ cs)
  pub front_string :
      (s : String) (cs : List (Cell D)) (p : P)
      → contents p ≡ string s ∷ cs
      → ((read_string p).0 ≡ s) × (contents (read_string p).1 ≡ cs)
  pub front_string16 :
      (s : String) (cs : List (Cell D)) (p : P)
      → contents p ≡ string16 s ∷ cs
      → ((read_string16 p).0 ≡ s) × (contents (read_string16 p).1 ≡ cs)
  pub front_remote_object :
      (r : Option ℕ) (cs : List (Cell D)) (p : P)
      → contents p ≡ remote_object r ∷ cs
      → ((read_remote_object p).0 ≡ r) × (contents (read_remote_object p).1 ≡ cs)
