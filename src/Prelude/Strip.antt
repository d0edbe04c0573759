-- ===== src/Prelude/Strip.antt =====
-- What `strip()` leaves, and how two stripped texts join.
use mathlib.Core.Path.{◌≡◌, refl, sym, ap, ◌∙◌}
use mathlib.Core.Logic.{◌≢◌, inl, inr}
use mathlib.Core.Bool.{false}
use mathlib.Core.List.{[], ◌∷◌, ◌++◌, reverse, reverse-append, reverse-reverse, append_assoc}
use native.Mathlib.Omega.{arith}
use voxenta_agentic_ai.Prelude.Tests.{Bool-cases}
use voxenta_agentic_ai.Prelude.Texts.{Text, is_space, strip_left, strip, space}

-- No space at the front.
abbrev pub StartsSolid : Text → Type 0
StartsSolid [] = Unit
StartsSolid (c ∷ s) = is_space c ≡ false

-- No space at either end.
abbrev pub IsStripped : Text → Type 0
IsStripped s = StartsSolid s × StartsSolid (reverse s)

strip_left-StartsSolid : (s : Text) → StartsSolid (strip_left s)
unfolding strip_left
strip_left-StartsSolid [] = tt
strip_left-StartsSolid (c ∷ s) = elim (Bool-cases (is_space c)) [
  | inl e ↦ rw (e, strip_left) (strip_left-StartsSolid s)
  | inr e ↦ rw (e, strip_left) e
]

strip_left-id : (s : Text) → StartsSolid s → strip_left s ≡ s
unfolding strip_left
strip_left-id [] h = refl
strip_left-id (c ∷ s) h = ground (arith, h)

-- What is cut off stands in front.
cut_left : (s : Text) → (w : Text) × (s ≡ w ++ strip_left s)
unfolding strip_left
cut_left [] = ([], refl)
cut_left (c ∷ s) = elim (Bool-cases (is_space c)) [
  | inl e ↦ let (w, p) = cut_left s in (c ∷ w, rw (e, strip_left) (ap (λ t. c ∷ t) p))
  | inr e ↦ ([], rw (e, strip_left))
]

StartsSolid-prefix : (u v : Text) → StartsSolid (u ++ v) → StartsSolid u
StartsSolid-prefix [] v h = tt
StartsSolid-prefix (c ∷ u) v h = h

StartsSolid-append : (u v : Text) → u ≢ [] → StartsSolid u → StartsSolid (u ++ v)
StartsSolid-append [] v ne h = absurd (ne refl)
StartsSolid-append (c ∷ u) v ne h = h

pub strip-IsStripped : (s : Text) → IsStripped (strip s)
unfolding strip
strip-IsStripped s =
    let u = strip_left s in
    let v = strip_left (reverse u) in
    let (w, p) = cut_left (reverse u) in
    let joined : u ≡ reverse v ++ reverse w =
      sym (reverse-reverse u) ∙ ap reverse p ∙ reverse-append w v in
    (
      StartsSolid-prefix (reverse v) (reverse w) (rw joined at (strip_left-StartsSolid s)),
      rw (reverse-reverse v) (strip_left-StartsSolid (reverse u)),
    )

pub strip-id : (s : Text) → IsStripped s → strip s ≡ s
unfolding strip
strip-id s h = rw (strip_left-id s h.0, strip_left-id (reverse s) h.1) (reverse-reverse s)

pub reverse-eq-nil : (s : Text) → reverse s ≡ [] → s ≡ []
reverse-eq-nil s h = sym (reverse-reverse s) ∙ ap reverse h

-- Two stripped texts, neither empty, joined by one space.
pub IsStripped-join :
    (a b : Text) → a ≢ [] → b ≢ [] → IsStripped a → IsStripped b → IsStripped (a ++ space ++ b)
IsStripped-join a b na nb ha hb = (
  rw (append_assoc a space b) (StartsSolid-append a (space ++ b) na ha.0),
  rw (reverse-append (a ++ space) b)
      (StartsSolid-append (reverse b) (reverse (a ++ space)) (λ e. nb (reverse-eq-nil b e)) hb.1),
)
