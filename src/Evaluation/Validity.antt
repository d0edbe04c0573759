-- ===== src/Evaluation/Validity.antt =====
-- src/node/evalGraph/ValidityNode/validity_node_config.py: the gate that rejects an answer before it is
-- scored, and the routes after it (src/node/evalGraph/graphConfig.py).
pub mod Verdict
pub mod Silence
use voxenta_agentic_ai.Prelude.{
  ℕ, ℤ, zero, suc, ◌*◌, ◌<◌, Bool, true, false, not, ◌&&◌, Option, none, some, List, [], ◌∷◌, ◌++◌,
  any, Text, text_eq, ◌==◌, codes, ltb, eqb, get_or, or_text, strip, word_count, if◌then◌else◌,
}
use voxenta_agentic_ai.Realtime.Transcript.{Fraction}
use voxenta_agentic_ai.Speech.Tags.{compute_code_switching_ratio}
use voxenta_agentic_ai.Evaluation.{Question, SpeakingInput, Status, processing, error, GraphState}
use voxenta_agentic_ai.Realtime.Question.{QuestionType}
use voxenta_agentic_ai.Realtime.Followup.Signals.{get_expected_min_words, positive}
use voxenta_agentic_ai.Evaluation.Rules.{
  RuleResult, Entry, normalize_rule_result, is_blocking_reject, ValidityResult,
  build_validity_result_from_rules,
}

-- A rule in the model's answer, as it is read; `none` where the key is missing.
pub record LlmRule : Type 0 where
  pub triggered : Bool
  pub rule_id : Option Text
  pub severity : Option Text
  pub action : Option Text
  pub blocking : Option Bool
  pub target_criteria : List Text

-- What the node calls: the test for `\w`, `round(…, 2)`, and the model, asked about a text. The answer is `none`
-- if the call or the reading of its JSON fails; a rule that is no object is `none`.
pub record Services : Type 0 where
  pub word : ℕ → Bool
  pub round_2 : Fraction → Fraction
  pub ask : Text → Option (List (Option LlmRule))

-- `number if number > 0 else None`
unfoldable pub coerce_positive : Option ℕ → Option ℕ
coerce_positive none = none
coerce_positive (some zero) = none
coerce_positive (some (suc n)) = some (suc n)

-- What the rules are about. Durations are in milliseconds.
pub record Answer : Type 0 where
  pub text : Text
  pub word_count : ℕ
  pub question_type : Option QuestionType
  pub duration_seconds : Option ℤ
  pub min_response_seconds : Option ℤ
  pub is_scripted : Bool
  pub is_turn_fragment : Bool
  pub actual_response : Option ℕ

unfoldable pub no_speech : Answer → List RuleResult
unfolding normalize_rule_result
no_speech a =
    if eqb a.word_count 0
    then normalize_rule_result (record {
      rule_id = codes "audio.no_speech";
      category = codes "audio";
      severity = some (codes "critical");
      action = some (codes "reject_or_zero");
      blocking = true;
      target_criteria = [];
    })
      ∷ []
    else []

-- `ratio > WRONG_LANGUAGE_RATIO_THRESHOLD`
unfoldable pub above_threshold : Fraction → Bool
above_threshold f = ltb (f.denominator * 70) (f.numerator * 100)

unfoldable pub in_wrong_language : Services → Answer → Bool
unfolding above_threshold compute_code_switching_ratio
in_wrong_language services a =
    ltb 0 a.word_count
    && above_threshold (compute_code_switching_ratio services.word services.round_2 a.text)

unfoldable pub wrong_language : Services → Answer → List RuleResult
unfolding in_wrong_language normalize_rule_result
wrong_language services a =
    if in_wrong_language services a
    then normalize_rule_result (record {
      rule_id = codes "language.wrong_language_full";
      category = codes "language";
      severity = some (codes "critical");
      action = some (codes "reject_or_zero");
      blocking = true;
      target_criteria = [];
    })
      ∷ []
    else []

-- A rule that lowers the score; `STRICT_ZERO_ON_TOO_SHORT` is off.
unfoldable pub penalty : (rule_id category : Text) → List Text → RuleResult
unfolding normalize_rule_result
penalty rule_id category targets = normalize_rule_result (record {
  rule_id = rule_id;
  category = category;
  severity = some (codes "medium");
  action = some (codes "score_with_penalty");
  blocking = false;
  target_criteria = targets;
})

-- `actual < expected * 0.5`, if both are there
unfoldable pub under_half : Option ℕ → Option ℕ → Bool
under_half none expected = false
under_half (some actual) none = false
under_half (some actual) (some expected) = ltb (actual * 2) expected

-- `min_response_seconds` in milliseconds
unfoldable pub expected_min_response : Answer → Option ℕ
unfolding positive
expected_min_response a = elim (positive a.min_response_seconds) [
  | none ↦ none
  | some seconds ↦ some (seconds * 1000)
]

abbrev pub language_criteria : List Text
language_criteria = codes "grammar" ∷ codes "vocabulary" ∷ codes "coherence" ∷ []

unfoldable pub too_few_words : Answer → List RuleResult
unfolding penalty get_expected_min_words
too_few_words a =
    if ltb a.word_count
      (get_expected_min_words a.question_type a.duration_seconds a.min_response_seconds)
    then penalty (codes "answer_length.too_short") (codes "length") language_criteria ∷ []
    else []

unfoldable pub too_brief : Answer → List RuleResult
unfolding penalty under_half expected_min_response
too_brief a =
    if under_half a.actual_response (expected_min_response a)
    then penalty (codes "answer_duration.too_short") (codes "duration")
        (codes "fluency" ∷ language_criteria)
      ∷ []
    else []

unfoldable pub too_short : Answer → List RuleResult
unfolding too_few_words too_brief
too_short a =
    if not a.is_turn_fragment && (not a.is_scripted && ltb 0 a.word_count)
    then too_few_words a ++ too_brief a
    else []

-- The rules that need no model.
unfoldable pub local_rules : Services → Answer → List RuleResult
unfolding no_speech wrong_language too_short
local_rules services a = (no_speech a ++ wrong_language services a) ++ too_short a

-- `s.split(".")[0]`
unfoldable pub before_dot : Text → Text
before_dot [] = []
before_dot (c ∷ s) = let rest = before_dot s in if eqb c 46 then [] else c ∷ rest

unfoldable pub merge_rule : LlmRule → RuleResult
unfolding before_dot normalize_rule_result
merge_rule rule = normalize_rule_result (record {
  rule_id = get_or rule.rule_id (codes "unknown_rule");
  category = before_dot (get_or rule.rule_id []);
  severity = some (get_or rule.severity (codes "critical"));
  action = some (get_or rule.action (codes "reject_or_zero"));
  blocking = get_or rule.blocking true;
  target_criteria = rule.target_criteria;
})

-- The rules that are merged: those up to one that is no object, which ends the loop.
unfoldable pub merge_rules : List (Option LlmRule) → List RuleResult
unfolding merge_rule
merge_rules [] = []
merge_rules (none ∷ rules) = []
merge_rules (some rule ∷ rules) =
    let rest = merge_rules rules in if rule.triggered then merge_rule rule ∷ rest else rest

-- Whether the model is asked, given the rules so far
unfoldable pub is_asked : Answer → List RuleResult → Bool
unfolding is_blocking_reject
is_asked a rules =
    not a.is_turn_fragment && (not (any is_blocking_reject rules) && ltb 0 a.word_count)

unfoldable pub llm_rules : Services → Answer → List RuleResult → List RuleResult
unfolding is_asked merge_rules
llm_rules services a rules =
    if is_asked a rules then merge_rules (get_or (services.ask a.text) []) else []

unfoldable pub all_rules : Services → Answer → List RuleResult
unfolding local_rules llm_rules
all_rules services a = let rules = local_rules services a in rules ++ llm_rules services a rules

-- The answer of an input, and what the question says if there is one
unfoldable pub answer_of : Services → GraphState → SpeakingInput → Answer
unfolding coerce_positive strip word_count
answer_of services state input =
    let text =
      strip (or_text (get_or input.transcribed_text []) (get_or state.transcription_text [])) in
    let about : Question =
      get_or input.question
        (record { question_type = none; duration_seconds = none; min_response_seconds = none }) in
    record {
      text = text;
      word_count = word_count services.word text;
      question_type = about.question_type;
      duration_seconds = about.duration_seconds;
      min_response_seconds = about.min_response_seconds;
      is_scripted = input.is_scripted;
      is_turn_fragment = state.is_turn_fragment;
      actual_response = coerce_positive state.actual_response;
    }

unfoldable pub validity_of : Services → Answer → ValidityResult
unfolding all_rules build_validity_result_from_rules
validity_of services a = build_validity_result_from_rules (all_rules services a) a.word_count

unfoldable pub check_input : Services → GraphState → Option SpeakingInput → GraphState
unfolding answer_of validity_of
check_input services state none = record state {
  status = error (codes "speaking_input is required for validity_node");
}
check_input services state (some input) = record state {
  validity = some (validity_of services (answer_of services state input));
  status = processing;
}

unfoldable pub validity_node : Services → GraphState → GraphState
unfolding check_input
validity_node services state = check_input services state state.speaking_input

-- Where the graph goes on.
pub data Route : Type 0 where
  end : Route
  pronunciation_eval : Route
  pronunciation_and_length : Route

-- `validity and validity.action == "reject_or_zero"`
unfoldable pub is_rejected : Option ValidityResult → Bool
is_rejected none = false
is_rejected (some v) = v.action == codes "reject_or_zero"

unfoldable pub route_after_validity : GraphState → Route
unfolding is_rejected
route_after_validity state =
    if is_rejected state.validity
    then end
    else if state.is_turn_fragment
    then pronunciation_eval
    else pronunciation_and_length
