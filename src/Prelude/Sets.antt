-- ===== src/Prelude/Sets.antt =====
-- A Python set as a list without repetitions, and its laws.
use mathlib.Core.Path.{◌≡◌, refl}
use mathlib.Core.Bool.{Bool, true, false}
use mathlib.Core.List.{List, [], ◌∷◌, ◌++◌}
use native.Mathlib.Omega.{arith}
use Prim.Native.Nat.{◌+◌, ◌≤◌}
use voxenta_agentic_ai.Prelude.Tests.{if◌then◌else◌}
use voxenta_agentic_ai.Prelude.Lists.{length}
use voxenta_agentic_ai.Prelude.Equality.{Eq, ◌==◌}

module _ {ℓ} {K : Type ℓ} ⦃e : Eq K⦄ where
  -- `k in s`
  unfoldable pub mem : List K → K → Bool
  mem [] k = false
  mem (j ∷ s) k = if j == k then true else mem s k

  -- `s.add(k)`
  unfoldable pub add : List K → K → List K
  unfolding mem
  add s k = if mem s k then s else k ∷ s

  -- `s.discard(k)`
  unfoldable pub discard : List K → K → List K
  discard [] k = []
  discard (j ∷ s) k = let rest = discard s k in if j == k then rest else j ∷ rest

  pub mem-add : (s : List K) (k j : K) → mem (add s k) j ≡ (if k == j then true else mem s j)
  unfolding mem add
  mem-add [] k j = refl
  mem-add (i ∷ s) k j = ground (arith, mem-add s k j, e.beq_iff i k, e.beq_iff i j, e.beq_iff k j)

  pub mem-discard :
      (s : List K) (k j : K) → mem (discard s k) j ≡ (if k == j then false else mem s j)
  unfolding mem discard
  mem-discard [] k j = ground arith
  mem-discard (i ∷ s) k j =
      ground (arith, mem-discard s k j, e.beq_iff i k, e.beq_iff i j, e.beq_iff k j)

  pub length-discard-le : (s : List K) (k : K) → length (discard s k) ≤ length s
  unfolding discard
  length-discard-le [] k = ground arith
  length-discard-le (i ∷ s) k = ground (arith, length-discard-le s k)

  -- Taking out a member makes the set smaller.
  pub length-discard-mem :
      (s : List K) (k : K) → mem s k ≡ true → length (discard s k) + 1 ≤ length s
  unfolding mem discard
  length-discard-mem [] k h = ground arith
  length-discard-mem (i ∷ s) k h = ground (arith, length-discard-mem s k, length-discard-le s k)

  pub length-add-le : (s : List K) (k : K) → length (add s k) ≤ length s + 1
  unfolding add
  length-add-le s k = ground arith

  pub mem-append : (s t : List K) (k : K) → mem (s ++ t) k ≡ (if mem s k then true else mem t k)
  unfolding mem
  mem-append [] t k = refl
  mem-append (i ∷ s) t k = ground (arith, mem-append s t k)
