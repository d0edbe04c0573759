-- ===== src/Scoring/Reference/Stability.antt =====
-- What the stability of three references says, and that their order does not matter to it.
use voxenta_agentic_ai.Prelude.{
  ◌≤◌, ◌<◌, ◌≡◌, ◌↔◌, ◌∙◌, refl, sym, ap, Option, none, some, List, [], ◌∷◌, Text, arith, get_or,
}
use mathlib.Core.Path.{subst}
use voxenta_agentic_ai.Realtime.Transcript.{Fraction}
use voxenta_agentic_ai.Speech.WordErrors.{Unicode}
use voxenta_agentic_ai.Scoring.Reference.{
  plus, over, symmetric_similarity, words, among_three, usable, among, compute_reference_confidence,
}
use voxenta_agentic_ai.Scoring.Reference.Agreement.{
  IsUpTo, Reaches, plus-IsUpTo, similarity-one, mean, compare-stability, mean-swap_back,
  mean-swap_front, similarity-flip,
}

mean-one :
    (a b c : List Text) (x y z : Option Fraction) {s : Fraction}
    → symmetric_similarity a b ≡ x
    → symmetric_similarity a c ≡ y
    → symmetric_similarity b c ≡ z
    → mean x y z ≡ some s
    → IsUpTo 1 s × (Reaches 1 s ↔ ((a ≡ b) × (a ≡ c)))
unfolding mean
mean-one a b c none y z ab ac bc h = cc
mean-one a b c (some f) none z ab ac bc h = cc
mean-one a b c (some f) (some g) none ab ac bc h = cc
mean-one a b c (some f) (some g) (some k) {s} ab ac bc h =
    let (up_f, one_f) = similarity-one a b ab in
    let (up_g, one_g) = similarity-one a c ac in
    let (up_k, one_k) = similarity-one b c bc in
    let (up_two, one_two) = plus-IsUpTo 1 1 f g up_f up_g in
    let (up, one) = plus-IsUpTo 2 1 (plus f g) k up_two up_k in
    let third : IsUpTo 1 (over 3 (plus (plus f g) k)) =
      unfold over in (omega (arith, up.0), omega (arith, up.1)) in
    subst (λ t. IsUpTo 1 t × (Reaches 1 t ↔ ((a ≡ b) × (a ≡ c)))) (ap (λ o. get_or o s) h)
      (
        third,
        (
          λ r.
              let both = one_two.0 (one.0 (unfold over in omega (arith, r))).0 in
              (one_f.0 both.0, one_g.0 both.1),
          λ (p, q).
              let all = one.1 (one_two.1 (one_f.1 p, one_g.1 q), one_k.1 (sym p ∙ q)) in
              unfold over in omega (arith, all),
        ),
      )

-- If a stability is returned, exactly three references are usable; it lies between 0 and 1, and is 1 exactly
-- if the three have the same words after normalization.
pub compute_reference_confidence-stability :
    (unicode : Unicode) (raw : Text) (references : List Text) {s : Fraction}
    → (compute_reference_confidence unicode raw references).stability ≡ some s
    → (a : Text) × (b : Text) × (c : Text) × (usable references ≡ a ∷ b ∷ c ∷ [])
      × (0 < s.denominator)
      × (s.numerator ≤ s.denominator)
      × ((s.numerator ≡ s.denominator)
          ↔ ((words unicode a ≡ words unicode b) × (words unicode a ≡ words unicode c)))
unfolding compute_reference_confidence
compute_reference_confidence-stability unicode raw references {s} h =
    let (a, b, c, e, up, one) = go (usable references) h in
    (
      a,
      b,
      c,
      e,
      up.0,
      omega (arith, up.1),
      (λ q. one.0 (omega (arith, q)), λ p. omega (arith, one.1 p)),
    )
  where
    three :
        (a b c : Text)
        → (among_three unicode raw a b c).stability ≡ some s
        → IsUpTo 1 s
          × (Reaches 1 s
              ↔ ((words unicode a ≡ words unicode b) × (words unicode a ≡ words unicode c)))
    three a b c k =
        let x = symmetric_similarity (words unicode a) (words unicode b) in
        let y = symmetric_similarity (words unicode a) (words unicode c) in
        let z = symmetric_similarity (words unicode b) (words unicode c) in
        mean-one (words unicode a) (words unicode b) (words unicode c) x y z refl refl refl
          (sym (compare-stability unicode raw a b c x y z) ∙ unfold among_three in k)

    go :
        (found : List Text)
        → (among unicode raw found).stability ≡ some s
        → (a : Text) × (b : Text) × (c : Text) × (found ≡ a ∷ b ∷ c ∷ [])
          × IsUpTo 1 s
          × (Reaches 1 s
              ↔ ((words unicode a ≡ words unicode b) × (words unicode a ≡ words unicode c)))
    go [] k = absurd (unfold among in cc)
    go (a ∷ []) k = absurd (unfold among in cc)
    go (a ∷ b ∷ []) k = absurd (unfold among in cc)
    go (a ∷ b ∷ c ∷ []) k =
        let (up, one) = three a b c (unfold among in k) in (a, b, c, refl, up, one)
    go (a ∷ b ∷ c ∷ d ∷ more) k = absurd (unfold among in cc)

-- The stability does not depend on the order of the references.
pub compute_reference_confidence-order :
    (unicode : Unicode) (raw : Text) (a b c : Text)
    (references swapped_front swapped_back : List Text)
    → usable references ≡ a ∷ b ∷ c ∷ []
    → usable swapped_front ≡ b ∷ a ∷ c ∷ []
    → usable swapped_back ≡ a ∷ c ∷ b ∷ []
    → ((compute_reference_confidence unicode raw swapped_front).stability
        ≡ (compute_reference_confidence unicode raw references).stability)
      × ((compute_reference_confidence unicode raw swapped_back).stability
          ≡ (compute_reference_confidence unicode raw references).stability)
unfolding compute_reference_confidence
compute_reference_confidence-order unicode raw a b c references swapped_front swapped_back e f g =
    rw (e, f, g)
      (
        stability_of b a c
            ∙ ap (λ x. mean x (similar b c) (similar a c)) (similarity-flip _ _)
            ∙ mean-swap_back (similar a b) (similar b c) (similar a c)
            ∙ sym (stability_of a b c),
        stability_of a c b
            ∙ ap (λ z. mean (similar a c) (similar a b) z) (similarity-flip _ _)
            ∙ mean-swap_front (similar a c) (similar a b) (similar b c)
            ∙ sym (stability_of a b c),
      )
  where
    similar : Text → Text → Option Fraction
    similar s t = symmetric_similarity (words unicode s) (words unicode t)

    stability_of :
        (s t u : Text)
        → (among unicode raw (s ∷ t ∷ u ∷ [])).stability
          ≡ mean (similar s t) (similar s u) (similar t u)
    stability_of s t u =
        unfold among among_three in
        compare-stability unicode raw s t u (similar s t) (similar s u) (similar t u)
