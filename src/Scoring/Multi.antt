-- ===== src/Scoring/Multi.antt =====
-- `run_multi_criterion_consensus_judgment` of src/utils/confidence_utils.py: three runs that score all the
-- criteria at once, in the order in which they complete.
pub mod Criteria
pub mod Order
pub mod Bounds
use voxenta_agentic_ai.Prelude.{
  ℕ, suc, Bool, true, false, Option, none, some, List, [], ◌∷◌, ◌++◌, map, Text,
}
use voxenta_agentic_ai.Scoring.Calls.{
  Attempt, rate_limited, broken, gave, call_with_retry_and_fallback,
}
use voxenta_agentic_ai.Scoring.Judgment.{
  Response, TextTools, Scored, ScoreRange, ConsensusJudgment, read_score, judge,
}

-- The JSON that a run returns: no object, or an object with some criteria that are objects.
pub data Round : Type 0 where
  not_object : Round
  object : (Text → Option Response) → Round

-- An entry of `scored_by_criterion`, with its range.
pub record Column : Type 0 where
  pub key : Text
  pub range : ScoreRange
  pub scored : List Scored

pub record Gathered : Type 0 where
  pub columns : List Column
  pub first_error : Option Text

-- What is raised: `response.get` on what is no object, the first error of the runs, or the complaint that a
-- criterion has no valid run.
pub data Failure : Type 0 where
  not_an_object : Failure
  failed_run : Text → Failure
  no_valid_run : Text → Failure

pub data Outcome (A : Type 0) : Type 0 where
  raised : Failure → Outcome A
  done : A → Outcome A

unfoldable pub run_one : (ℕ → ℕ → Attempt Round) → (ℕ → Attempt Round) → ℕ → Attempt Round
unfolding call_with_retry_and_fallback
run_one primary fallback index = (call_with_retry_and_fallback (primary index) (fallback index)).0

-- The body of the loop over the criteria.
unfoldable pub add_response : TextTools → Text → (Text → Option Response) → Column → Column
unfolding read_score
add_response tools transcript response c = elim (response c.key) [
  | none ↦ c
  | some r ↦ elim (read_score tools transcript c.range r) [
    | none ↦ c
    | some s ↦ record c { scored = c.scored ++ s ∷ [] }
  ]
]

abbrev pub or_first : Option Text → Text → Option Text
or_first none e = some e
or_first (some first) e = some first

-- The loop over the runs, in the order in which they complete. There is at least one criterion.
unfoldable pub gather : TextTools → Text → List (Attempt Round) → Gathered → Outcome Gathered
unfolding add_response
gather tools transcript [] g = done g
gather tools transcript (rate_limited e ∷ runs) g =
    gather tools transcript runs (record g { first_error = or_first g.first_error e })
gather tools transcript (broken e ∷ runs) g =
    gather tools transcript runs (record g { first_error = or_first g.first_error e })
gather tools transcript (gave not_object ∷ runs) g = raised not_an_object
gather tools transcript (gave (object response) ∷ runs) g =
    gather tools transcript runs
      (record g { columns = map (add_response tools transcript response) g.columns })

abbrev pub failure_of : Option Text → Text → Failure
failure_of (some e) key = failed_run e
failure_of none key = no_valid_run key

abbrev pub put_first :
    Text
    → ConsensusJudgment
    → Outcome (List (Text × ConsensusJudgment))
    → Outcome (List (Text × ConsensusJudgment))
put_first key j (raised e) = raised e
put_first key j (done rest) = done ((key, j) ∷ rest)

-- The loop over `scored_by_criterion`.
unfoldable pub judge_columns : Option Text → List Column → Outcome (List (Text × ConsensusJudgment))
unfolding judge
judge_columns first_error [] = done []
judge_columns first_error (c ∷ cs) =
    let rest = judge_columns first_error cs in
    elim (judge c.range c.scored) [
      | none ↦ raised (failure_of first_error c.key)
      | some j ↦ put_first c.key j rest
    ]

abbrev pub empty_column : Text × ScoreRange → Column
empty_column c = record { key = c.0; range = c.1; scored = [] }

-- `order` is the order in which the three runs complete.
unfoldable pub run_multi_criterion_consensus_judgment :
    TextTools
    → Text
    → List (Text × ScoreRange)
    → (ℕ → ℕ → Attempt Round)
    → (ℕ → Attempt Round)
    → List ℕ
    → Outcome (List (Text × ConsensusJudgment))
unfolding gather judge_columns run_one
run_multi_criterion_consensus_judgment tools transcript criteria primary fallback order =
    let start : Gathered = record { columns = map empty_column criteria; first_error = none } in
    elim (gather tools transcript (map (run_one primary fallback) order) start) [
      | raised e ↦ raised e
      | done g ↦ judge_columns g.first_error g.columns
    ]
