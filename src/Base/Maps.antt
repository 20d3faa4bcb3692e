-- ===== src/Base/Maps.antt =====
-- `std::map` as an association list: `find`, `insert`, `erase` and `operator[]` by key.
use mathlib.Core.Path.{◌≡◌}
use mathlib.Core.Option.{Option, none, some}
use mathlib.Core.List.{List, [], ◌∷◌}
use native.Mathlib.Omega.{arith}
use gitee_oh_base_location.Base.Tests.{if◌then◌else◌}
use gitee_oh_base_location.Base.Equality.{Eq, ◌==◌}

module _ {ℓ} {K V : Type ℓ} ⦃e : Eq K⦄ where
  abbrev pub lookup : K → List (K × V) → Option V
  lookup key [] = none
  lookup key (entry ∷ rest) = if entry.0 == key then some entry.1 else lookup key rest

  -- Writes the value of a key that is there.
  abbrev pub update : K → V → List (K × V) → List (K × V)
  update k v [] = []
  update k v ((j, w) ∷ m) = if j == k then (j, v) ∷ m else (j, w) ∷ update k v m

  abbrev pub erase : K → List (K × V) → List (K × V)
  erase k [] = []
  erase k ((j, w) ∷ m) = if j == k then erase k m else (j, w) ∷ erase k m

  pub lookup-erase :
      (k j : K) (m : List (K × V)) → lookup j (erase k m) ≡ (if k == j then none else lookup j m)
  lookup-erase k j [] = ground arith
  lookup-erase k j ((i, w) ∷ m) =
      ground (arith, e.beq_iff k j, e.beq_iff i k, e.beq_iff i j, lookup-erase k j m)

  pub lookup-update :
      (k j : K) (v : V) (m : List (K × V))
      → lookup j (update k v m)
        ≡ (if k == j then elim (lookup j m) [ none ↦ none | some w ↦ some v ] else lookup j m)
  lookup-update k j v [] = ground arith
  lookup-update k j v ((i, w) ∷ m) =
      ground (arith, e.beq_iff k j, e.beq_iff i k, e.beq_iff i j, lookup-update k j v m)
