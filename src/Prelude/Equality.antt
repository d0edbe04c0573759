-- ===== src/Prelude/Equality.antt =====
-- Python's `==` on keys, as an interface.
use Prim.Native.Nat.{ℕ}
use mathlib.Core.Path.{◌≡◌, refl}
use mathlib.Core.Logic.{◌↔◌, ◌≢◌, inl, inr}
use mathlib.Core.Bool.{Bool, true, false, ◌&&◌}
use mathlib.Core.List.{List, [], ◌∷◌}
use native.Mathlib.Omega.{arith}
use voxenta_agentic_ai.Prelude.Tests.{eqb, eqb_iff, Bool-cases}

pub record Eq {ℓ} (K : Type ℓ) : Type ℓ where
  pub beq : K → K → Bool
  pub beq_iff : (j k : K) → (beq j k ≡ true) ↔ (j ≡ k)

-- `j == k`
abbrev pub ◌==◌ {ℓ} : {K : Type ℓ} ⦃keys : Eq K⦄ → K → K → Bool
◌==◌ ⦃keys⦄ = keys.beq

infix 50 ◌==◌
module _ {ℓ} {A : Type ℓ} ⦃e : Eq A⦄ where
  pub eq_refl : (a : A) → (a == a) ≡ true
  eq_refl a = (e.beq_iff a a).1 refl

  pub eq_false : (a b : A) → a ≢ b → (a == b) ≡ false
  eq_false a b h = elim (Bool-cases (a == b)) [
    | inl same ↦ absurd (h ((e.beq_iff a b).0 same))
    | inr other ↦ other
  ]

instance abbrev pub ℕ_eq : Eq ℕ
ℕ_eq = record { beq = eqb; beq_iff = eqb_iff }

abbrev pub list_eqb {ℓ} : {A : Type ℓ} → (A → A → Bool) → List A → List A → Bool
list_eqb f [] [] = true
list_eqb f [] (y ∷ ys) = false
list_eqb f (x ∷ xs) [] = false
list_eqb f (x ∷ xs) (y ∷ ys) = f x y && list_eqb f xs ys

pub list_eqb_iff : (xs ys : List ℕ) → (list_eqb eqb xs ys ≡ true) ↔ (xs ≡ ys)
list_eqb_iff [] [] = (λ _. refl, λ _. refl)
list_eqb_iff [] (y ∷ ys) = (λ h. cc, λ h. cc)
list_eqb_iff (x ∷ xs) [] = (λ h. cc, λ h. cc)
list_eqb_iff (x ∷ xs) (y ∷ ys) =
    (λ h. ground (arith, list_eqb_iff xs ys), λ h. ground (arith, list_eqb_iff xs ys, eqb_iff x y))
