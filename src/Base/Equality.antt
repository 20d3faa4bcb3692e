-- ===== src/Base/Equality.antt =====
-- One test of equality for every type that the source compares with `==` or `compare`.
use Prim.Native.Nat.{ℕ}
use Prim.Native.String.{String}
use mathlib.Core.Path.{◌≡◌, refl}
use mathlib.Core.Logic.{◌≢◌, ◌↔◌, inl, inr}
use mathlib.Core.Bool.{Bool, true, false}
use text.Mathlib.Text.{◌==◌ as str_beq}
use text.Mathlib.TextEquality.{eq_iff}
use native.Mathlib.Omega.{arith}
use gitee_oh_base_location.Base.Tests.{nat_beq, nat_beq_iff, Bool-cases}
use gitee_oh_base_location.Base.Int.{ℤ, int_beq, int_beq_iff}

pub record Eq {κ} (X : Type κ) : Type κ where
  -- The test of the source.
  pub beq : X → X → Bool
  -- What it decides.
  pub beq_iff : (x y : X) → (beq x y ≡ true) ↔ (x ≡ y)

instance abbrev pub int_eq : Eq ℤ
int_eq = record { beq_iff = int_beq_iff; beq = int_beq }

instance abbrev pub string_eq : Eq String
string_eq = record { beq_iff = eq_iff; beq = str_beq }

instance abbrev pub nat_eq : Eq ℕ
nat_eq = record { beq_iff = nat_beq_iff; beq = nat_beq }

-- The operator, for each of these types.
infix 50 ◌==◌
abbrev pub ◌==◌ {κ} : {X : Type κ} ⦃test : Eq X⦄ → X → X → Bool
◌==◌ ⦃test⦄ = test.beq

module _ {ℓ} {A : Type ℓ} ⦃e : Eq A⦄ where
  pub ==_refl : (a : A) → (a == a) ≡ true
  ==_refl a = (e.beq_iff a a).1 refl

  pub ==→eq : (a b : A) → (a == b) ≡ true → a ≡ b
  ==→eq a b = (e.beq_iff a b).0

  pub ne→== : (a b : A) → a ≢ b → (a == b) ≡ false
  ne→== a b ne = elim (Bool-cases (a == b)) [
    | inl same ↦ absurd (ne (==→eq a b same))
    | inr other ↦ other
  ]

  pub ==_comm : (a b : A) → (a == b) ≡ (b == a)
  ==_comm a b = ground (arith, e.beq_iff a b, e.beq_iff b a)
