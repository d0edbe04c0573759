-- ===== src/Speech/WordErrors/Distance.antt =====
-- The distance by recursion on both lists of words, and that it is the cost of the cheapest script.
use mathlib.Core.Path.{subst}
use voxenta_agentic_ai.Prelude.{
  ℕ, suc, ◌+◌, ◌≤◌, ◌≡◌, ◌⊎◌, ap, min, refl, List, [], ◌∷◌, length, Text, text_eq, ◌==◌,
  if◌then◌else◌, arith, Bool-cases, inl, inr, eq_refl,
}
use voxenta_agentic_ai.Speech.WordErrors.Script.{
  Script, done, copy, replace, erase, insert, costing,
}

unfoldable pub distance : List Text → List Text → ℕ
distance [] new = length new
distance (v ∷ old) [] = suc (length old)
distance (v ∷ old) (w ∷ new) =
    let both = distance old new in
    let above = distance old (w ∷ new) in
    let left = distance (v ∷ old) new in if v == w then both else suc (min (min both above) left)

-- One word more on a side makes the distance at most one greater, and at most one less.
erase-more :
    (v : Text) (old new : List Text)
    → ((h : Text) (rest : List Text) → distance old rest ≤ distance old (h ∷ rest) + 1)
    → distance (v ∷ old) new ≤ distance old new + 1
unfolding distance
erase-more v [] [] less = omega arith
erase-more v (u ∷ old) [] less = omega arith
erase-more v old (h ∷ new) less = ground (arith, less h new)

insert-less : (w : Text) (old new : List Text) → distance old new ≤ distance old (w ∷ new) + 1
unfolding distance
insert-less w [] new = omega arith
insert-less w (v ∷ old) new =
    let less : (h : Text) (rest : List Text) → distance old rest ≤ distance old (h ∷ rest) + 1 =
      λ h rest. insert-less h old rest in
    let more = erase-more v old new less in ground (arith, more, less w new)

insert-more :
    (w : Text) (old new : List Text)
    → ((v : Text) (rest : List Text) → distance rest new ≤ distance (v ∷ rest) new + 1)
    → distance old (w ∷ new) ≤ distance old new + 1
unfolding distance
insert-more w [] new less = omega arith
insert-more w (v ∷ old) new less = ground (arith, less v old)

erase-less : (v : Text) (old new : List Text) → distance old new ≤ distance (v ∷ old) new + 1
unfolding distance
erase-less v [] [] = omega arith
erase-less v (u ∷ old) [] = omega arith
erase-less v old (h ∷ new) =
    let less : (u : Text) (rest : List Text) → distance rest new ≤ distance (u ∷ rest) new + 1 =
      λ u rest. erase-less u rest new in
    let more = insert-more h old new less in ground (arith, more, less v old)

-- Two steps at once.
replace-more :
    (v w : Text) (old new : List Text) → distance (v ∷ old) (w ∷ new) ≤ distance old new + 1
unfolding distance
replace-more v w old new = ground arith

distance-copy : (w : Text) (old new : List Text) → distance (w ∷ old) (w ∷ new) ≡ distance old new
unfolding distance
distance-copy w old new = rw (eq_refl w) refl

-- No script is cheaper than the distance.
pub distance-least : {old new : List Text} {n : ℕ} → Script old new n → distance old new ≤ n
unfolding distance
distance-least done = omega arith
distance-least (copy w {old} {new} s) = rw (distance-copy w old new) (distance-least s)
distance-least (replace v w {old} {new} s) =
    omega (arith, replace-more v w old new, distance-least s)
distance-least (erase v {old} {new} s) =
    omega (arith, erase-more v old new (λ h rest. insert-less h old rest), distance-least s)
distance-least (insert w {old} {new} s) =
    omega (arith, insert-more w old new (λ v rest. erase-less v rest new), distance-least s)

min_cases : (b a l : ℕ) → (b ≡ min (min b a) l) ⊎ (a ≡ min (min b a) l) ⊎ (l ≡ min (min b a) l)
min_cases b a l = ground arith

insert_all : (new : List Text) → Script [] new (length new)
insert_all [] = done
insert_all (w ∷ new) = insert w (insert_all new)

erase_all : (old : List Text) → Script old [] (length old)
erase_all [] = done
erase_all (v ∷ old) = erase v (erase_all old)

cheapest :
    (v w : Text) {old new : List Text} {b a l : ℕ}
    → Script old new b
    → Script old (w ∷ new) a
    → Script (v ∷ old) new l
    → Script (v ∷ old) (w ∷ new) (suc (min (min b a) l))
cheapest v w {old} {new} {b} {a} {l} s t u = elim (min_cases b a l) [
  | inl e ↦ costing (ap suc e) (replace v w s)
  | inr (inl e) ↦ costing (ap suc e) (erase v t)
  | inr (inr e) ↦ costing (ap suc e) (insert w u)
]

-- Some script costs the distance.
pub distance-Script : (old new : List Text) → Script old new (distance old new)
unfolding distance
distance-Script [] new = insert_all new
distance-Script (v ∷ old) [] = erase_all (v ∷ old)
distance-Script (v ∷ old) (w ∷ new) =
    let both = distance-Script old new in
    let above = distance-Script old (w ∷ new) in
    let left = distance-Script (v ∷ old) new in
    elim (Bool-cases (v == w)) [
      | inl e ↦
          let same = (text_eq.beq_iff v w).0 e in
          rw e (subst (λ u. Script (v ∷ old) (u ∷ new) (distance old new)) same (copy v both))
      | inr e ↦ rw e (cheapest v w both above left)
    ]
