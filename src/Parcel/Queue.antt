-- ===== src/Parcel/Queue.antt =====
-- A parcel as a list of cells: a concrete parcel, for the witnesses. A read that does not fit gives a
-- default and moves nothing.
use gitee_oh_base_location.Base.{
  Bool, List, String, [], false, pos, refl, ℤ, ◌++◌, ◌∷◌, Option, none, ℕ,
}
use gitee_oh_base_location.Parcel.{
  ParcelOps, Cell, int32, int64, bool, double, float, string, string16, remote_object,
}

module _ {D : Type 0} (zero_double : D) where
  abbrev take_int32 : List (Cell D) → ℤ × List (Cell D)
  take_int32 (int32 x ∷ cs) = (x, cs)
  take_int32 cs = (pos 0, cs)

  abbrev take_int64 : List (Cell D) → ℤ × List (Cell D)
  take_int64 (int64 x ∷ cs) = (x, cs)
  take_int64 cs = (pos 0, cs)

  abbrev take_bool : List (Cell D) → Bool × List (Cell D)
  take_bool (bool x ∷ cs) = (x, cs)
  take_bool cs = (false, cs)

  abbrev take_double : List (Cell D) → D × List (Cell D)
  take_double (double x ∷ cs) = (x, cs)
  take_double cs = (zero_double, cs)

  abbrev take_float : List (Cell D) → D × List (Cell D)
  take_float (float x ∷ cs) = (x, cs)
  take_float cs = (zero_double, cs)

  abbrev take_string : List (Cell D) → String × List (Cell D)
  take_string (string x ∷ cs) = (x, cs)
  take_string cs = ("", cs)

  abbrev take_string16 : List (Cell D) → String × List (Cell D)
  take_string16 (string16 x ∷ cs) = (x, cs)
  take_string16 cs = ("", cs)

  abbrev take_remote_object : List (Cell D) → Option ℕ × List (Cell D)
  take_remote_object (remote_object x ∷ cs) = (x, cs)
  take_remote_object cs = (none, cs)

  abbrev pub queue : ParcelOps D
  queue = record {
    P = List (Cell D);
    contents = λ p. p;
    write = λ c p. p ++ c ∷ [];
    read_int32 = take_int32;
    read_int64 = take_int64;
    read_bool = take_bool;
    read_double = take_double;
    read_float = take_float;
    read_string = take_string;
    read_string16 = take_string16;
    read_remote_object = take_remote_object;
    contents-write = λ c p. refl;
    front_int32 = λ x cs p h. rw h (refl, refl);
    front_int64 = λ x cs p h. rw h (refl, refl);
    front_bool = λ x cs p h. rw h (refl, refl);
    front_double = λ x cs p h. rw h (refl, refl);
    front_float = λ x cs p h. rw h (refl, refl);
    front_string = λ x cs p h. rw h (refl, refl);
    front_string16 = λ x cs p h. rw h (refl, refl);
    front_remote_object = λ x cs p h. rw h (refl, refl);
  }
