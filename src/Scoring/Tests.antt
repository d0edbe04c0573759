-- ===== src/Scoring/Tests.antt =====
-- The theorems on scoring at concrete inputs.
use mathlib.Core.List.Perm
use voxenta_agentic_ai.Prelude.{
  ℕ, zero, suc, ◌*◌, ◌≤◌, ◌≡◌, ◌≢◌, refl, none, some, List, [], ◌∷◌, map, length, codes, Text, All,
}
use voxenta_agentic_ai.Prelude.{false, leb, ◌<◌, ◌↔◌}
use voxenta_agentic_ai.Realtime.Transcript.{Fraction}
use voxenta_agentic_ai.Speech.WordErrors.{Unicode, normalize_for_wer}
use voxenta_agentic_ai.Scoring.Reference.{compute_reference_confidence, usable, words}
use voxenta_agentic_ai.Scoring.Reference.Stability.{
  compute_reference_confidence-stability, compute_reference_confidence-order,
}
use voxenta_agentic_ai.Scoring.Calls.{Attempt, rate_limited, broken, gave}
use voxenta_agentic_ai.Scoring.Judgment.{
  number, Response, TextTools, Scored, ScoreRange, ConsensusJudgment, judge, read_score,
}
use voxenta_agentic_ai.Scoring.Judgment.Sorting.{scores_of}
use voxenta_agentic_ai.Scoring.Judgment.Median.{IsIn, count_at_most, count_at_least, judge-median}
use voxenta_agentic_ai.Scoring.Judgment.Bounds.{IsInBounds}
use voxenta_agentic_ai.Scoring.Multi.{
  Round, object, done, run_one, run_multi_criterion_consensus_judgment,
}
use voxenta_agentic_ai.Scoring.Multi.Criteria.{IsMalformed, Judged, scored_for, run_multi_lem}
use voxenta_agentic_ai.Scoring.Multi.Order.{measures, run_multi-perm}
use voxenta_agentic_ai.Scoring.Multi.Bounds.{criterion-IsInBounds}

abbrev tools : TextTools
tools = record { findall = λ t. t ∷ []; lower = λ t. t; casefold = λ t. t }

abbrev transcript : Text
transcript = codes "we like it"

abbrev response_of : ℕ → Response
response_of n = record {
  score = number n;
  evidence_spans = some (some (codes "like") ∷ []);
  note = none;
}

abbrev range : ScoreRange
range = record { score_min = 0; score_max = 10000000 }

abbrev criteria : List (Text × ScoreRange)
criteria = (codes "grammar", range) ∷ (codes "coherence", range) ∷ []

-- The second run meets a rate limit first, and the third one falls back.
abbrev primary : ℕ → ℕ → Attempt Round
primary zero n = gave (object (λ key. some (response_of 7000000)))
primary (suc zero) zero = rate_limited (codes "429")
primary (suc zero) (suc n) = gave (object (λ key. some (response_of 7500000)))
primary (suc (suc i)) n = broken (codes "timeout")

abbrev fallback : ℕ → Attempt Round
fallback i = gave (object (λ key. some (response_of 8000000)))

abbrev order : List ℕ
order = 2 ∷ 0 ∷ 1 ∷ []

abbrev runs : List (Attempt Round)
runs = map (run_one primary fallback) order

abbrev judged : ConsensusJudgment
judged = record {
  response = response_of 7500000;
  score = 7500000;
  confidence = record { numerator = 5000000; denominator = 10000000 };
  score_delta_on_ten_point_scale = record { numerator = 10000000; denominator = 10000000 };
}

abbrev grammar_runs : List Scored
grammar_runs = scored_for tools transcript (codes "grammar", range) runs

is_judged : judge range grammar_runs ≡ some judged
unfolding judge scored_for read_score run_one
is_judged = refl

judge-median_example :
    ((s : Scored) × IsIn s grammar_runs × (s.response ≡ judged.response) × (s.score ≡ judged.score))
    × (length grammar_runs ≤ count_at_most judged.score (scores_of grammar_runs) * 2)
    × (length grammar_runs ≤ count_at_least judged.score (scores_of grammar_runs) * 2)
judge-median_example = judge-median range grammar_runs is_judged

criterion-IsInBounds_example : IsInBounds range (length grammar_runs) judged
criterion-IsInBounds_example =
    criterion-IsInBounds tools transcript range (codes "grammar") runs is_judged

none-IsMalformed : All (λ r. ¬ IsMalformed r) runs
unfolding run_one
none-IsMalformed = (λ x. x, (λ x. x, (λ x. x, tt)))

All-scored : All (λ c. scored_for tools transcript c runs ≢ []) criteria
unfolding scored_for read_score run_one
All-scored = (λ e. cc, (λ e. cc, tt))

run_multi_example :
    (js : List (Text × ConsensusJudgment)) × (run_multi_criterion_consensus_judgment tools
        transcript criteria primary fallback order
      ≡ done js)
    × Judged tools transcript runs criteria js
run_multi_example =
    (run_multi_lem tools transcript criteria primary fallback order).0 none-IsMalformed All-scored

run_multi-perm_example :
    measures
      (run_multi_criterion_consensus_judgment tools transcript criteria primary fallback order)
    ≡ measures (
        run_multi_criterion_consensus_judgment tools transcript criteria primary fallback
          (0 ∷ 2 ∷ 1 ∷ []))
run_multi-perm_example =
    run_multi-perm tools transcript criteria primary fallback (Perm.swap 0 2 (1 ∷ []))

abbrev unicode : Unicode
unicode = record { lower = λ t. t; nfd = λ t. t; combining = λ c. false; word = λ c. leb 97 c }

abbrev rewrites : List Text
rewrites = codes "we like tea" ∷ codes " we like tea" ∷ codes "we liked tea" ∷ []

abbrev front_swapped : List Text
front_swapped = codes "we like tea " ∷ codes "we like tea" ∷ codes "we liked tea" ∷ []

abbrev back_swapped : List Text
back_swapped = codes "we like tea" ∷ codes "we liked tea" ∷ codes "we like tea" ∷ []

abbrev raw : Text
raw = codes "we likes tea"

-- Of the three similarities one is 1, and two are two thirds.
abbrev stability : Fraction
stability = record { numerator = 13608; denominator = 17496 }

is_stable : (compute_reference_confidence unicode raw rewrites).stability ≡ some stability
unfolding compute_reference_confidence normalize_for_wer
is_stable = refl

compute_reference_confidence-stability_example :
    (a : Text) × (b : Text) × (c : Text) × (usable rewrites ≡ a ∷ b ∷ c ∷ [])
    × (0 < stability.denominator)
    × (stability.numerator ≤ stability.denominator)
    × ((stability.numerator ≡ stability.denominator)
        ↔ ((words unicode a ≡ words unicode b) × (words unicode a ≡ words unicode c)))
compute_reference_confidence-stability_example =
    compute_reference_confidence-stability unicode raw rewrites is_stable

tea : usable rewrites ≡ codes "we like tea" ∷ codes "we like tea" ∷ codes "we liked tea" ∷ []
unfolding usable
tea = refl

tea_front :
    usable front_swapped ≡ codes "we like tea" ∷ codes "we like tea" ∷ codes "we liked tea" ∷ []
unfolding usable
tea_front = refl

tea_back :
    usable back_swapped ≡ codes "we like tea" ∷ codes "we liked tea" ∷ codes "we like tea" ∷ []
unfolding usable
tea_back = refl

compute_reference_confidence-order_example :
    ((compute_reference_confidence unicode raw front_swapped).stability
      ≡ (compute_reference_confidence unicode raw rewrites).stability)
    × ((compute_reference_confidence unicode raw back_swapped).stability
        ≡ (compute_reference_confidence unicode raw rewrites).stability)
compute_reference_confidence-order_example =
    compute_reference_confidence-order unicode raw (codes "we like tea") (codes "we like tea")
      (codes "we liked tea") rewrites front_swapped back_swapped tea tea_front tea_back
