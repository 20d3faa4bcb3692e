-- ===== src/Registry.antt =====
-- The registries of callbacks that LocatorAbility and GnssAbility keep: a `std::map` from the uid of
-- the caller to its callback. A callback is named by the number of its remote object.
use gitee_oh_base_location.Base.{
  ℕ, List, [], arith, erase, if◌then◌else◌, int_eq, lookup, lookup-erase, ltb_ℤ, nat_eq, negsuc,
  none, some, string_eq, ℤ, ◌==◌, ◌∷◌, ◌≡◌, Bool, any_by, not, refl, true,
}

-- The uid of the first entry with the callback, or -1.
unfoldable pub uid_of : ℕ → List (ℤ × ℕ) → ℤ
uid_of callback [] = negsuc 0
uid_of callback (entry ∷ m) = if entry.1 == callback then entry.0 else uid_of callback m

-- `std::map::insert` of a key that is not there, in the order of the keys.
unfoldable pub insert_key : ℤ → ℕ → List (ℤ × ℕ) → List (ℤ × ℕ)
insert_key uid callback [] = (uid, callback) ∷ []
insert_key uid callback (entry ∷ m) =
    if ltb_ℤ uid entry.0 then (uid, callback) ∷ entry ∷ m else entry ∷ insert_key uid callback m

-- `erase(uid)` and then `insert`.
unfoldable pub put_callback : ℕ → ℤ → List (ℤ × ℕ) → List (ℤ × ℕ)
put_callback callback uid m = insert_key uid callback (erase uid m)

-- The loop that looks for the callback, and `erase(uid)`.
unfoldable pub drop_callback : ℕ → List (ℤ × ℕ) → List (ℤ × ℕ)
drop_callback callback m = erase (uid_of callback m) m

lookup-insert_key :
    (uid : ℤ) (callback : ℕ) (m : List (ℤ × ℕ)) (k : ℤ)
    → lookup uid m ≡ none
    → lookup k (insert_key uid callback m) ≡ (if uid == k then some callback else lookup k m)
unfolding insert_key
lookup-insert_key uid callback [] k h = ground (arith, int_eq.beq_iff uid k)
lookup-insert_key uid callback ((j, c) ∷ m) k h = ground (
  arith,
  int_eq.beq_iff uid k,
  int_eq.beq_iff j k,
  int_eq.beq_iff j uid,
  lookup-insert_key uid callback m k,
)

-- After a registration the uid has the new callback and no other; every other uid keeps its own.
pub lookup-put_callback :
    (callback : ℕ) (uid : ℤ) (m : List (ℤ × ℕ)) (k : ℤ)
    → lookup k (put_callback callback uid m) ≡ (if uid == k then some callback else lookup k m)
unfolding put_callback
lookup-put_callback callback uid m k = ground (
  arith,
  lookup-insert_key uid callback (erase uid m) k,
  lookup-erase uid uid m,
  lookup-erase uid k m,
  int_eq.beq_iff uid uid,
)

-- A callback that is deregistered takes away the first uid that has it, and nothing else.
pub lookup-drop_callback :
    (callback : ℕ) (m : List (ℤ × ℕ)) (k : ℤ)
    → lookup k (drop_callback callback m) ≡ (if uid_of callback m == k then none else lookup k m)
unfolding drop_callback
lookup-drop_callback callback m k = lookup-erase (uid_of callback m) k m

-- No uid has the callback.
abbrev pub is_absent : ℕ → List (ℤ × ℕ) → Bool
is_absent callback m = not (any_by (λ entry. entry.1 == callback) m)

is_absent-erase :
    (callback : ℕ) (uid : ℤ) (m : List (ℤ × ℕ))
    → is_absent callback m ≡ true
    → is_absent callback (erase uid m) ≡ true
is_absent-erase callback uid [] h = refl
is_absent-erase callback uid ((j, c) ∷ m) h =
    let rest : is_absent callback m ≡ true = ground (arith, h) in
    ground (arith, h, is_absent-erase callback uid m rest)

uid_of-insert_key :
    (callback : ℕ) (uid : ℤ) (m : List (ℤ × ℕ))
    → is_absent callback m ≡ true
    → uid_of callback (insert_key uid callback m) ≡ uid
unfolding uid_of insert_key
uid_of-insert_key callback uid [] h = ground (arith, nat_eq.beq_iff callback callback)
uid_of-insert_key callback uid ((j, c) ∷ m) h =
    let rest : is_absent callback m ≡ true = ground (arith, h) in
    ground (arith, h, uid_of-insert_key callback uid m rest, nat_eq.beq_iff callback callback)

-- A callback that nobody has, registered for a uid and then deregistered, leaves that uid without a
-- callback, also without the one that it had before, and every other uid with its own.
pub lookup-drop_callback-put_callback :
    (callback : ℕ) (uid : ℤ) (m : List (ℤ × ℕ)) (k : ℤ)
    → is_absent callback m ≡ true
    → lookup k (drop_callback callback (put_callback callback uid m))
      ≡ (if uid == k then none else lookup k m)
unfolding put_callback
lookup-drop_callback-put_callback callback uid m k h = ground (
  arith,
  lookup-drop_callback callback (put_callback callback uid m) k,
  uid_of-insert_key callback uid (erase uid m) (is_absent-erase callback uid m h),
  lookup-put_callback callback uid m k,
)
