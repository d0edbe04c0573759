-- ===== src/Realtime/Followup/Counting.antt =====
-- src/node/followUpDecisionGraph/followup_graph_helper.py, constants.py and the counts of
-- RepeatRecoveryNode/repeat_recovery_node_helper.py.
use voxenta_agentic_ai.Prelude.{
  ℕ, Bool, not, ◌||◌, Option, List, [], ◌∷◌, length, keep_if, Text, text_eq, ◌==◌, codes, strip,
  starts_with, mem, get_or,
}
use voxenta_agentic_ai.Realtime.Turn.{Turn}
use voxenta_agentic_ai.Realtime.TurnLimit.{clarification_reasons}

abbrev pub max_turns : ℕ
max_turns = 10

abbrev pub max_clarification_turns : ℕ
max_clarification_turns = 5

-- Other than the test of the turn processor, this one strips the reason and does not lower it.
unfoldable pub is_clarification_reason : Option Text → Bool
unfolding starts_with strip mem
is_clarification_reason reason =
    starts_with (strip (get_or reason [])) (codes "clarification_")
    || mem clarification_reasons (strip (get_or reason []))

unfoldable pub count_assessment_turns : List Turn → ℕ
count_assessment_turns turns =
    length (keep_if (λ t. not (is_clarification_reason t.decision_reason)) turns)

abbrev pub decline_repair_reason : Text
decline_repair_reason = codes "decline_repair"

abbrev pub remind_respectfully_reason : Text
remind_respectfully_reason = codes "remind_respectfully"

abbrev pub redirect_offtopic_reason : Text
redirect_offtopic_reason = codes "redirect_offtopic"

abbrev pub redirect_wrong_language_reason : Text
redirect_wrong_language_reason = codes "redirect_wrong_language"

abbrev pub engagement_violation_reasons : List Text
engagement_violation_reasons =
    decline_repair_reason ∷ remind_respectfully_reason ∷ redirect_offtopic_reason
    ∷ redirect_wrong_language_reason ∷ []

unfoldable pub is_violation : Turn → Bool
unfolding mem
is_violation t = mem engagement_violation_reasons (get_or t.decision_reason [])

unfoldable pub is_of_type : Text → Turn → Bool
is_of_type reason t = get_or t.decision_reason [] == reason

unfoldable pub count_engagement_violations : List Turn → ℕ
count_engagement_violations turns = length (keep_if is_violation turns)

unfoldable pub count_violations_of_type : List Turn → Text → ℕ
count_violations_of_type turns reason = length (keep_if (is_of_type reason) turns)
