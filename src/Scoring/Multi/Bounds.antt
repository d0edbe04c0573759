-- ===== src/Scoring/Multi/Bounds.antt =====
-- What the judgment on a criterion says, whatever the runs return.
use voxenta_agentic_ai.Prelude.{
  ℕ, ◌≤◌, ◌≡◌, Option, none, some, List, [], ◌∷◌, length, Text, All, All-append, Option-cases, inl,
  inr, arith,
}
use voxenta_agentic_ai.Scoring.Calls.{Attempt, rate_limited, broken, gave}
use voxenta_agentic_ai.Scoring.Judgment.{
  Reading, unreadable, not_finite, negative, number, Response, TextTools, Scored, ScoreRange,
  ConsensusJudgment, in_range, read_score, judge,
}
use voxenta_agentic_ai.Scoring.Judgment.Bounds.{Admits, IsInBounds, judge-IsInBounds}
use voxenta_agentic_ai.Scoring.Multi.{Round, not_object, object}
use voxenta_agentic_ai.Scoring.Multi.Criteria.{opt_list, opt_bind, scored_for}

in_range-bounds :
    (range : ScoreRange) (reading : Reading) {n : ℕ}
    → in_range range reading ≡ some n
    → (range.score_min ≤ n) × (n ≤ range.score_max)
unfolding in_range
in_range-bounds range unreadable h = cc
in_range-bounds range not_finite h = cc
in_range-bounds range negative h = cc
in_range-bounds range (number m) h = ground arith

module _ (tools : TextTools) (transcript : Text) (range : ScoreRange) where
  read_score-Admits :
      (r : Response) {s : Scored} → read_score tools transcript range r ≡ some s → Admits range s
  unfolding read_score
  read_score-Admits r h = elim (Option-cases (in_range range r.score)) [
    | inl e ↦ absurd (ground arith)
    | inr (n, e) ↦ let (low, high) = in_range-bounds range r.score e in ground (arith, low, high)
  ]

  read-Admits :
      (o : Option Response)
      → All (Admits range) (opt_list (opt_bind (read_score tools transcript range) o))
  read-Admits none = tt
  read-Admits (some r) = elim (Option-cases (read_score tools transcript range r)) [
    | inl e ↦ rw e tt
    | inr (s, e) ↦ rw e (read_score-Admits r e, tt)
  ]

  scored_for-Admits :
      (key : Text) (runs : List (Attempt Round))
      → All (Admits range) (scored_for tools transcript (key, range) runs)
  unfolding scored_for
  scored_for-Admits key [] = tt
  scored_for-Admits key (rate_limited e ∷ runs) = scored_for-Admits key runs
  scored_for-Admits key (broken e ∷ runs) = scored_for-Admits key runs
  scored_for-Admits key (gave not_object ∷ runs) = scored_for-Admits key runs
  scored_for-Admits key (gave (object response) ∷ runs) =
      All-append (Admits range) _ _ (read-Admits (response key)) (scored_for-Admits key runs)

  -- Whatever the runs return for a criterion: the score that is selected lies in its range, the confidence
  -- between 0 and 1, and the delta between 0 and 10. The confidence is 0 exactly if only one run has a
  -- valid score, or the delta is at least two points.
  pub criterion-IsInBounds :
      (key : Text) (runs : List (Attempt Round)) {j : ConsensusJudgment}
      → let ss = scored_for tools transcript (key, range) runs in
        judge range ss ≡ some j → IsInBounds range (length ss) j
  criterion-IsInBounds key runs h = judge-IsInBounds range _ (scored_for-Admits key runs) h
