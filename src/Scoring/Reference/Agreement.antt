-- ===== src/Scoring/Reference/Agreement.antt =====
-- The stability of three references: it is 1 for references of the same words only, and it does not
-- depend on their order.
use native.Mathlib.Nat.{one-le-mul, mul-le-mul_right, mul-lt-mul_of_pos_left}
use voxenta_agentic_ai.Prelude.{
  ℕ, ◌+◌, ◌*◌, ◌≤◌, ◌<◌, ◌≡◌, ◌↔◌, refl, sym, ap, Option, none, some, List, [], ◌∷◌, Text, arith,
  get_or,
}
use mathlib.Core.Path.{subst}
use voxenta_agentic_ai.Realtime.Transcript.{Fraction}
use voxenta_agentic_ai.Speech.WordErrors.{Unicode, word_error_rate}
use voxenta_agentic_ai.Speech.WordErrors.Metric.{errors-zero}
use voxenta_agentic_ai.Scoring.Reference.{
  plus, over, clip_from_one, both_ways, symmetric_similarity, medoid, drifted, words, compare,
}

-- At most so many ones, of a positive denominator.
abbrev pub IsUpTo : ℕ → Fraction → Type 0
IsUpTo k f = (0 < f.denominator) × (f.numerator ≤ k * f.denominator)

-- Exactly so many ones.
abbrev pub Reaches : ℕ → Fraction → Type 0
Reaches k f = f.numerator ≡ k * f.denominator

product_positive : (m n : ℕ) → 0 < m → 0 < n → 0 < m * n
product_positive m n h k =
    omega (arith, one-le-mul {a = m} {b = n} (omega (arith, h)) (omega (arith, k)))

tight : (m n : ℕ) → m ≤ n → (m < n → n ≤ m) → m ≡ n
tight m n le h = ground (arith, h)

zero_factor : (m n : ℕ) → 0 < n → m * n ≡ 0 → m ≡ 0
zero_factor m n h e =
    sym (tight 0 m (omega arith) (λ lt. omega (arith, product_positive m n lt h, e)))

-- A product with a positive factor grows strictly in the other.
scaled : (m n k : ℕ) → 0 < k → (m ≤ n → m * k ≤ n * k) × (m < n → m * k < n * k)
scaled m n k h = (
  λ le. mul-le-mul_right k le,
  λ lt. omega (arith, mul-lt-mul_of_pos_left {m = m} {n = n} {k = k} lt h),
)

pub plus-IsUpTo :
    (k l : ℕ) (f g : Fraction)
    → IsUpTo k f
    → IsUpTo l g
    → IsUpTo (k + l) (plus f g) × (Reaches (k + l) (plus f g) ↔ (Reaches k f × Reaches l g))
unfolding plus
plus-IsUpTo k l f g (pf, hf) (pg, hg) =
    let (le_f, lt_f) = scaled f.numerator (k * f.denominator) g.denominator pg in
    let (le_g, lt_g) = scaled g.numerator (l * g.denominator) f.denominator pf in
    (
      (product_positive f.denominator g.denominator pf pg, omega (arith, le_f hf, le_g hg)),
      (
        λ e. (
          tight f.numerator (k * f.denominator) hf (λ lt. omega (arith, lt_f lt, le_g hg, e)),
          tight g.numerator (l * g.denominator) hg (λ lt. omega (arith, lt_g lt, le_f hf, e)),
        ),
        λ (e, d). omega (arith, ap (λ n. n * g.denominator) e, ap (λ n. n * f.denominator) d),
      ),
    )

-- A rate has a positive denominator, and is 0 for equal lists only.
rate_lem :
    (a b : List Text) {f : Fraction}
    → word_error_rate a b ≡ some f
    → (0 < f.denominator) × ((f.numerator ≡ 0) ↔ (a ≡ b))
unfolding word_error_rate
rate_lem [] [] h = cc
rate_lem [] (w ∷ b) {f} h =
    subst (λ g. (0 < g.denominator) × ((g.numerator ≡ 0) ↔ ([] ≡ w ∷ b))) (ap (λ o. get_or o f) h)
      (omega arith, (λ e. absurd (omega (arith, e)), λ e. absurd cc))
rate_lem (v ∷ a) b {f} h =
    subst (λ g. (0 < g.denominator) × ((g.numerator ≡ 0) ↔ (v ∷ a ≡ b))) (ap (λ o. get_or o f) h)
      (omega arith, errors-zero (v ∷ a) b)

similarity_of : Fraction → Fraction → Fraction
similarity_of f g = clip_from_one (over 2 (plus f g))

similarity_of_lem :
    (f g : Fraction)
    → 0 < f.denominator
    → 0 < g.denominator
    → let s = similarity_of f g in
      IsUpTo 1 s × (Reaches 1 s ↔ ((f.numerator ≡ 0) × (g.numerator ≡ 0)))
unfolding similarity_of clip_from_one over plus
similarity_of_lem f g pf pg =
    let positive = product_positive f.denominator g.denominator pf pg in
    (
      (omega (arith, positive), omega arith),
      (
        λ e. (
          zero_factor f.numerator g.denominator pg (omega (arith, positive, e)),
          zero_factor g.numerator f.denominator pf (omega (arith, positive, e)),
        ),
        λ (e, d).
            let left : f.numerator * g.denominator ≡ 0 = rw e (omega arith) in
            let right : g.numerator * f.denominator ≡ 0 = rw d (omega arith) in
            omega (arith, left, right),
      ),
    )

-- A similarity is at most 1, and 1 for equal lists only.
pub similarity-one :
    (a b : List Text) {s : Fraction}
    → symmetric_similarity a b ≡ some s
    → IsUpTo 1 s × (Reaches 1 s ↔ (a ≡ b))
unfolding symmetric_similarity similarity_of
similarity-one a b {s} h = go (word_error_rate a b) (word_error_rate b a) refl refl h
  where
    go :
        (there back : Option Fraction)
        → word_error_rate a b ≡ there
        → word_error_rate b a ≡ back
        → both_ways there back ≡ some s
        → IsUpTo 1 s × (Reaches 1 s ↔ (a ≡ b))
    go none back e d k = absurd (unfold both_ways in cc)
    go (some f) none e d k = absurd (unfold both_ways in cc)
    go (some f) (some g) e d k =
        let (pf, zero_f) = rate_lem a b e in
        let (pg, zero_g) = rate_lem b a d in
        let (up, reaches) = similarity_of_lem f g pf pg in
        let same : similarity_of f g ≡ s =
          unfold both_ways similarity_of in ap (λ o. get_or o s) k in
        subst (λ t. IsUpTo 1 t × (Reaches 1 t ↔ (a ≡ b))) same
          (up, (λ r. zero_f.0 (reaches.0 r).0, λ q. reaches.1 (zero_f.1 q, zero_g.1 (sym q))))

-- The mean of three, if all are there.
unfoldable pub mean : Option Fraction → Option Fraction → Option Fraction → Option Fraction
unfolding over plus
mean none y z = none
mean (some f) none z = none
mean (some f) (some g) none = none
mean (some f) (some g) (some h) = some (over 3 (plus (plus f g) h))

drifted-stability :
    (reference : Text) (s : Fraction) (drift : Option Fraction)
    → (drifted reference s drift).stability ≡ some s
unfolding drifted
drifted-stability reference s none = refl
drifted-stability reference s (some drift) = refl

pub compare-stability :
    (unicode : Unicode) (raw a b c : Text) (x y z : Option Fraction)
    → (compare unicode raw a b c x y z).stability ≡ mean x y z
unfolding compare mean
compare-stability unicode raw a b c none y z = refl
compare-stability unicode raw a b c (some f) none z = refl
compare-stability unicode raw a b c (some f) (some g) none = refl
compare-stability unicode raw a b c (some f) (some g) (some h) =
    let chosen = medoid (a, plus f g) (b, plus f h) (c, plus g h) in
    drifted-stability chosen (over 3 (plus (plus f g) h))
      (word_error_rate (words unicode raw) (words unicode chosen))

fraction_eq : (f g : Fraction) → f.numerator ≡ g.numerator → f.denominator ≡ g.denominator → f ≡ g
fraction_eq f g e d = cc

pub mean-swap_back : (x y z : Option Fraction) → mean x y z ≡ mean x z y
unfolding mean
mean-swap_back none y z = refl
mean-swap_back (some f) none none = refl
mean-swap_back (some f) none (some h) = refl
mean-swap_back (some f) (some g) none = refl
mean-swap_back (some f) (some g) (some h) = ap some (
    unfold over plus in
    fraction_eq (over 3 (plus (plus f g) h)) (over 3 (plus (plus f h) g)) (omega arith)
      (omega arith))

pub mean-swap_front : (x y z : Option Fraction) → mean x y z ≡ mean y x z
unfolding mean
mean-swap_front none none z = refl
mean-swap_front none (some g) z = refl
mean-swap_front (some f) none z = refl
mean-swap_front (some f) (some g) none = refl
mean-swap_front (some f) (some g) (some h) = ap some (
    unfold over plus in
    fraction_eq (over 3 (plus (plus f g) h)) (over 3 (plus (plus g f) h)) (omega arith)
      (omega arith))

pub similarity-flip : (a b : List Text) → symmetric_similarity a b ≡ symmetric_similarity b a
unfolding symmetric_similarity
similarity-flip a b = go (word_error_rate a b) (word_error_rate b a)
  where
    go : (x y : Option Fraction) → both_ways x y ≡ both_ways y x
    go none none = refl
    go none (some g) = unfold both_ways in refl
    go (some f) none = unfold both_ways in refl
    go (some f) (some g) =
        unfold both_ways clip_from_one over plus in
        ap some (
          fraction_eq (clip_from_one (over 2 (plus f g))) (clip_from_one (over 2 (plus g f)))
            (omega arith) (omega arith))
