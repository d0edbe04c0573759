-- ===== src/Evaluation/Rules.antt =====
-- The results of the rules, and the verdict on them (src/mappers/schema_mapper.py). The messages, the
-- evidence and the suggestions are left out.
use voxenta_agentic_ai.Prelude.{
  ℕ, Bool, true, false, ◌&&◌, Option, none, some, List, [], ◌∷◌, any, keep_if, Text, text_eq, ◌==◌,
  codes, mem, or_text, if◌then◌else◌,
}

abbrev pub valid_actions : List Text
valid_actions =
    codes "score"
    ∷ codes "score_with_penalty"
    ∷ codes "teacher_review"
    ∷ codes "reject_or_zero"
    ∷ []

abbrev pub valid_severities : List Text
valid_severities =
    codes "none" ∷ codes "low" ∷ codes "medium" ∷ codes "high" ∷ codes "critical" ∷ []

abbrev pub valid_criteria : List Text
valid_criteria =
    codes "pronunciation"
    ∷ codes "fluency"
    ∷ codes "grammar"
    ∷ codes "vocabulary"
    ∷ codes "coherence"
    ∷ []

-- The value, if it is a string among those allowed, and the default otherwise
unfoldable pub allowed_or : List Text → Text → Option Text → Text
allowed_or allowed default none = default
allowed_or allowed default (some value) = if mem allowed value then value else default

unfoldable pub normalize_rule_action : Option Text → Text
unfolding allowed_or
normalize_rule_action action = allowed_or valid_actions (codes "reject_or_zero") action

unfoldable pub normalize_rule_severity : Option Text → Text
unfolding allowed_or
normalize_rule_severity severity = allowed_or valid_severities (codes "critical") severity

unfoldable pub normalize_target_criteria : List Text → List Text
normalize_target_criteria targets = keep_if (λ item. mem valid_criteria item) targets

pub record RuleResult : Type 0 where
  pub rule_id : Text
  pub category : Text
  pub severity : Text
  pub action : Text
  pub blocking : Bool
  pub target_criteria : List Text

-- What `normalize_rule_result` reads of an entry: what is missing, or of the wrong type, is `none` or empty.
pub record Entry : Type 0 where
  pub rule_id : Text
  pub category : Text
  pub severity : Option Text
  pub action : Option Text
  pub blocking : Bool
  pub target_criteria : List Text

unfoldable pub normalize_rule_result : Entry → RuleResult
unfolding normalize_rule_action normalize_rule_severity normalize_target_criteria
normalize_rule_result entry = record {
  rule_id = or_text entry.rule_id (codes "unknown_rule");
  category = or_text entry.category (codes "unknown");
  severity = normalize_rule_severity entry.severity;
  action = normalize_rule_action entry.action;
  blocking = entry.blocking;
  target_criteria = normalize_target_criteria entry.target_criteria;
}

-- `r.blocking and r.action == "reject_or_zero"`
unfoldable pub is_blocking_reject : RuleResult → Bool
is_blocking_reject r = r.blocking && (r.action == codes "reject_or_zero")

pub record ValidityResult : Type 0 where
  pub valid_for_scoring : Bool
  pub action : Text
  pub overall_severity : Text
  pub rule_results : List RuleResult
  pub score_caps : List (Text × ℕ)
  pub transcript_word_count : ℕ

unfoldable pub build_validity_result_from_rules : List RuleResult → ℕ → ValidityResult
unfolding is_blocking_reject
build_validity_result_from_rules rules word_count =
    if any is_blocking_reject rules
    then record {
      valid_for_scoring = false;
      action = codes "reject_or_zero";
      overall_severity = codes "critical";
      rule_results = rules;
      score_caps =
          (codes "pronunciation_max", 0)
          ∷ (codes "fluency_max", 0)
          ∷ (codes "grammar_max", 0)
          ∷ (codes "vocabulary_max", 0)
          ∷ (codes "coherence_max", 0)
          ∷ [];
      transcript_word_count = word_count;
    }
    else record {
      valid_for_scoring = true;
      action = codes "score";
      overall_severity = codes "none";
      rule_results = rules;
      score_caps = [];
      transcript_word_count = word_count;
    }
