-- ===== src/Scoring/Judgment.antt =====
-- How the runs on one criterion become a judgment (src/utils/confidence_utils.py). Scores are in
-- millionths; a confidence is an exact fraction where the source has a float.
pub mod Sorting
pub mod Median
pub mod Bounds
use voxenta_agentic_ai.Prelude.{
  ℕ, zero, suc, ◌+◌, ◌-◌, ◌*◌, ◌/◌, min, max, Bool, true, false, not, ◌&&◌, ◌||◌, Option, none,
  some, List, [], ◌∷◌, map, length, any, keep_if, Text, text_eq, mem, strip, starts_with, is_empty,
  leb, ltb, if◌then◌else◌,
}
use voxenta_agentic_ai.Realtime.Transcript.{Fraction}

-- What `float(response["score"])` comes to.
pub data Reading : Type 0 where
  unreadable : Reading
  not_finite : Reading
  negative : Reading
  number : ℕ → Reading

-- The JSON object of one criterion, as far as it is read. A note that is no string is missing, and so are
-- evidence spans that are no list; a span that is no string is `none`.
pub record Response : Type 0 where
  pub score : Reading
  pub evidence_spans : Option (List (Option Text))
  pub note : Option Text

-- `_WORD_PATTERN.findall`, `str.lower` and `str.casefold`
pub record TextTools : Type 0 where
  pub findall : Text → List Text
  pub lower : Text → Text
  pub casefold : Text → Text

-- `part in whole`
unfoldable pub is_within : Text → Text → Bool
unfolding starts_with
is_within part [] = is_empty part
is_within part (c ∷ whole) = starts_with (c ∷ whole) part || is_within part whole

unfoldable pub rationale_is_grounded : TextTools → Option Text → Text → Bool
unfolding strip mem
rationale_is_grounded tools none transcript = false
rationale_is_grounded tools (some note) transcript =
    let words = map tools.lower (keep_if (λ w. leb 3 (length w)) (tools.findall transcript)) in
    let said = map tools.lower (tools.findall note) in
    not (is_empty (strip note)) && (not (any (λ w. true) words) || any (λ w. mem said w) words)

unfoldable pub span_is_grounded : TextTools → Text → Option Text → Bool
unfolding strip is_within
span_is_grounded tools transcript none = false
span_is_grounded tools transcript (some span) =
    not (is_empty (strip span))
    && is_within (tools.casefold (strip span)) (tools.casefold transcript)

unfoldable pub is_grounded : TextTools → Text → Response → Bool
unfolding span_is_grounded rationale_is_grounded
is_grounded tools transcript r = elim r.evidence_spans [
  | some spans ↦ any (span_is_grounded tools transcript) spans
  | none ↦ rationale_is_grounded tools r.note transcript
]

-- A run with a score.
pub record Scored : Type 0 where
  pub response : Response
  pub score : ℕ
  pub grounded : Bool

-- The bounds of the scores of a criterion.
pub record ScoreRange : Type 0 where
  pub score_min : ℕ
  pub score_max : ℕ

unfoldable pub in_range : ScoreRange → Reading → Option ℕ
in_range range unreadable = none
in_range range not_finite = none
in_range range negative = none
in_range range (number n) = if ltb n range.score_min || ltb range.score_max n then none else some n

unfoldable pub read_score : TextTools → Text → ScoreRange → Response → Option Scored
unfolding in_range is_grounded
read_score tools transcript range r = elim (in_range range r.score) [
  | none ↦ none
  | some n ↦ some (record { response = r; score = n; grounded = is_grounded tools transcript r })
]

-- `scored.sort(key=lambda item: item[1])`, which is stable.
unfoldable pub insert_scored : Scored → List Scored → List Scored
insert_scored s [] = s ∷ []
insert_scored s (t ∷ ts) =
    let rest = insert_scored s ts in if leb s.score t.score then s ∷ t ∷ ts else t ∷ rest

unfoldable pub sort_scored : List Scored → List Scored
unfolding insert_scored
sort_scored [] = []
sort_scored (s ∷ ss) = insert_scored s (sort_scored ss)

-- `xs[i]`, for an index within the list
unfoldable pub at {ℓ} : {A : Type ℓ} → A → List A → ℕ → A
at x [] i = x
at x (y ∷ ys) zero = y
at x (y ∷ ys) (suc i) = at x ys i

unfoldable pub highest : List ℕ → ℕ
highest [] = 0
highest (n ∷ ns) = max n (highest ns)

-- `min(scores)` of scores that begin with `n`
unfoldable pub lowest : ℕ → List ℕ → ℕ
lowest n [] = n
lowest n (m ∷ ms) = min n (lowest m ms)

unfoldable pub score_span : ScoreRange → ℕ
score_span range =
    if ltb range.score_min range.score_max then range.score_max - range.score_min else 100000000

pub record ConsensusJudgment : Type 0 where
  pub response : Response
  pub score : ℕ
  pub confidence : Fraction
  pub score_delta_on_ten_point_scale : Fraction

-- `clip_unit(1.0 - delta / 2.0)`, and the penalty of 30 percent if most of the runs are not grounded
unfoldable pub confidence_of : ℕ → ℕ → ℕ → ℕ → Fraction
confidence_of span spread ungrounded runs =
    let kept = span - spread * 5 in
    if ltb runs (ungrounded * 2)
    then record { numerator = kept * 7; denominator = span * 10 }
    else record { numerator = kept; denominator = span }

unfoldable pub count_ungrounded : List Scored → ℕ
count_ungrounded scored = length (keep_if (λ s. not s.grounded) scored)

-- The judgment on runs with a score, if there are any.
unfoldable pub judge : ScoreRange → List Scored → Option ConsensusJudgment
unfolding sort_scored at highest lowest score_span confidence_of count_ungrounded
judge range [] = none
judge range (s ∷ []) = some (record {
  response = s.response;
  score = s.score;
  confidence = record { numerator = 0; denominator = 1 };
  score_delta_on_ten_point_scale = record { numerator = 0; denominator = 1 };
})
judge range (s ∷ t ∷ ss) =
    let scored = s ∷ t ∷ ss in
    let scores = map (λ x. x.score) scored in
    let spread = highest scores - lowest s.score (map (λ x. x.score) (t ∷ ss)) in
    let span = score_span range in
    let selected = at s (sort_scored scored) (length scored / 2) in
    some (record {
      response = selected.response;
      score = selected.score;
      confidence = confidence_of span spread (count_ungrounded scored) (length scored);
      score_delta_on_ten_point_scale = record { numerator = spread * 10; denominator = span };
    })
