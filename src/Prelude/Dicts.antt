-- ===== src/Prelude/Dicts.antt =====
-- A Python dict as an association list in insertion order, and its laws.
use mathlib.Core.Path.{◌≡◌, refl}
use mathlib.Core.List.{List, [], ◌∷◌}
use mathlib.Core.Option.{Option, none, some}
use native.Mathlib.Omega.{arith}
use voxenta_agentic_ai.Prelude.Tests.{if◌then◌else◌}
use voxenta_agentic_ai.Prelude.Equality.{Eq, ◌==◌}

abbrev pub Dict {ℓ κ} : Type ℓ → Type κ → Type (ℓ ⊔ κ)
Dict K V = List (K × V)

module _ {ℓ κ} {K : Type ℓ} {V : Type κ} ⦃e : Eq K⦄ where
  -- `d.get(k)`
  unfoldable pub get : Dict K V → K → Option V
  get [] k = none
  get ((j, v) ∷ d) k = if j == k then some v else get d k

  -- `d[k] = v`
  unfoldable pub put : Dict K V → K → V → Dict K V
  put [] k v = (k, v) ∷ []
  put ((j, w) ∷ d) k v = if j == k then (k, v) ∷ d else (j, w) ∷ put d k v

  -- `d.pop(k, None)`
  unfoldable pub remove : Dict K V → K → Dict K V
  remove [] k = []
  remove ((j, v) ∷ d) k = let rest = remove d k in if j == k then rest else (j, v) ∷ rest

  pub get-put :
      (pairs : Dict K V) (key j : K) (value : V)
      → get (put pairs key value) j ≡ (if key == j then some value else get pairs j)
  unfolding get put
  get-put [] key j value = refl
  get-put ((i, w) ∷ pairs) key j value =
      ground (arith, get-put pairs key j value, e.beq_iff i key, e.beq_iff i j, e.beq_iff key j)

  pub get-remove :
      (pairs : Dict K V) (gone j : K)
      → get (remove pairs gone) j ≡ (if gone == j then none else get pairs j)
  unfolding get remove
  get-remove [] gone j = ground arith
  get-remove ((i, w) ∷ pairs) gone j =
      ground (arith, get-remove pairs gone j, e.beq_iff i gone, e.beq_iff i j, e.beq_iff gone j)
