-- ===== src/Scoring/Judgment/Bounds.antt =====
-- The bounds of a judgment, and when its confidence is zero.
use mathlib.Core.Path.{subst}
use voxenta_agentic_ai.Prelude.{
  ℕ, ◌-◌, ◌*◌, ◌≤◌, ◌<◌, ◌≡◌, ◌↔◌, ◌⊎◌, refl, ap, some, List, [], ◌∷◌, length, get_or, arith, All,
  inl, inr,
}
use voxenta_agentic_ai.Realtime.Transcript.{Fraction}
use voxenta_agentic_ai.Scoring.Judgment.{
  Scored, ScoreRange, ConsensusJudgment, judge, highest, lowest, score_span, confidence_of,
  count_ungrounded,
}
use voxenta_agentic_ai.Scoring.Judgment.Median.{IsIn, judge-median}
use voxenta_agentic_ai.Scoring.Judgment.Sorting.{scores_of}

-- A score that the range admits.
abbrev pub Admits : ScoreRange → Scored → Type 0
Admits range s = (range.score_min ≤ s.score) × (s.score ≤ range.score_max)

All-IsIn :
    (range : ScoreRange) (ss : List Scored) (s : Scored)
    → All (Admits range) ss
    → IsIn s ss
    → Admits range s
All-IsIn range [] s a h = absurd h
All-IsIn range (t ∷ ss) s a (inl e) = rw e a.0
All-IsIn range (t ∷ ss) s a (inr h) = All-IsIn range ss s a.1 h

highest-le :
    (range : ScoreRange) (ss : List Scored)
    → All (Admits range) ss
    → highest (scores_of ss) ≤ range.score_max
unfolding highest
highest-le range [] a = omega arith
highest-le range (s ∷ ss) a = omega (arith, a.0, highest-le range ss a.1)

lowest-ge :
    (range : ScoreRange) (s : Scored) (ss : List Scored)
    → Admits range s
    → All (Admits range) ss
    → range.score_min ≤ lowest s.score (scores_of ss)
unfolding lowest
lowest-ge range s [] h a = h.0
lowest-ge range s (t ∷ ss) h a = omega (arith, h, lowest-ge range t ss a.0 a.1)

spread-le-span :
    (range : ScoreRange) (low high : ℕ)
    → range.score_min ≤ low
    → high ≤ range.score_max
    → high - low ≤ score_span range
unfolding score_span
spread-le-span range low high h k = ground arith

score_span-positive : (range : ScoreRange) → 0 < score_span range
unfolding score_span
score_span-positive range = ground arith

confidence-bounds :
    (span spread ungrounded runs : ℕ)
    → 0 < span
    → let c = confidence_of span spread ungrounded runs in
      (0 < c.denominator)
      × (c.numerator ≤ c.denominator)
      × ((c.numerator ≡ 0) ↔ (span * 2 ≤ spread * 10))
unfolding confidence_of
confidence-bounds span spread ungrounded runs h = ground arith

abbrev pub AtLeastTwoPoints : Fraction → Type 0
AtLeastTwoPoints f = f.denominator * 2 ≤ f.numerator

-- What holds of the confidence and the delta over so many runs.
abbrev IsMeasured : ℕ → Fraction → Fraction → Type 0
IsMeasured runs c d =
    (0 < c.denominator)
    × (c.numerator ≤ c.denominator)
    × (d.numerator ≤ d.denominator * 10)
    × ((c.numerator ≡ 0) ↔ ((runs ≡ 1) ⊎ AtLeastTwoPoints d))

judge-IsMeasured :
    (range : ScoreRange) (ss : List Scored) {j : ConsensusJudgment}
    → All (Admits range) ss
    → judge range ss ≡ some j
    → IsMeasured (length ss) j.confidence j.score_delta_on_ten_point_scale
unfolding judge
judge-IsMeasured range [] a h = cc
judge-IsMeasured range (s ∷ []) {j} a h =
    subst (λ k. IsMeasured 1 k.confidence k.score_delta_on_ten_point_scale) (ap (λ o. get_or o j) h)
      (omega arith, omega arith, omega arith, (λ _. inl refl, λ _. refl))
judge-IsMeasured range (s ∷ t ∷ ss) {j} a h =
    let scored = s ∷ t ∷ ss in
    let span = score_span range in
    let spread = highest (scores_of scored) - lowest s.score (scores_of (t ∷ ss)) in
    let narrow : spread ≤ span =
      spread-le-span range _ _ (lowest-ge range s (t ∷ ss) a.0 a.1) (highest-le range scored a) in
    let (positive, below, zero) =
      confidence-bounds span spread (count_ungrounded scored) (length scored)
        (score_span-positive range) in
    subst (λ k. IsMeasured (length scored) k.confidence k.score_delta_on_ten_point_scale)
      (ap (λ o. get_or o j) h)
      (
        positive,
        below,
        omega (arith, narrow),
        (λ e. inr (zero.0 e), λ e. elim e [ inl k ↦ absurd (omega (arith, k)) | inr k ↦ zero.1 k ]),
      )

-- The score that is selected is in the range; the confidence lies between 0 and 1, and the delta between 0
-- and 10. The confidence is 0 exactly if there is only one run with a score, or the delta is at least two
-- points.
abbrev pub IsInBounds : ScoreRange → ℕ → ConsensusJudgment → Type 0
IsInBounds range runs j =
    (range.score_min ≤ j.score)
    × (j.score ≤ range.score_max)
    × (0 < j.confidence.denominator)
    × (j.confidence.numerator ≤ j.confidence.denominator)
    × (j.score_delta_on_ten_point_scale.numerator
        ≤ j.score_delta_on_ten_point_scale.denominator * 10)
    × ((j.confidence.numerator ≡ 0)
        ↔ ((runs ≡ 1) ⊎ AtLeastTwoPoints j.score_delta_on_ten_point_scale))

pub judge-IsInBounds :
    (range : ScoreRange) (ss : List Scored) {j : ConsensusJudgment}
    → All (Admits range) ss
    → judge range ss ≡ some j
    → IsInBounds range (length ss) j
judge-IsInBounds range ss {j} a h =
    let ((s, member, same, score), _, _) = judge-median range ss h in
    let (low, high) = All-IsIn range ss s a member in
    let (positive, below, delta, zero) = judge-IsMeasured range ss a h in
    (omega (arith, low, score), omega (arith, high, score), positive, below, delta, zero)
