-- ===== src/Realtime/TurnLimit.antt =====
-- The limits of src/realtime/turn/processor.py: how a decision to go on is overruled.
pub mod Limits
use voxenta_agentic_ai.Prelude.{
  ℕ, suc, ◌+◌, ℤ, pos, negsuc, ltb_ℤ, pos_part, neg_part, Bool, true, false, not, ◌&&◌, ◌||◌,
  Option, none, some, List, [], ◌∷◌, reverse, Text, text_eq, codes, lower, starts_with, is_empty,
  mem, leb, if◌then◌else◌,
}
use voxenta_agentic_ai.Realtime.Turn.{Turn, Decision}

abbrev pub clarification_reasons : List Text
clarification_reasons =
    codes "clarify_prompt" ∷ codes "decline_repair" ∷ codes "remind_respectfully" ∷ []

abbrev pub max_consecutive_clarifications : ℕ
max_consecutive_clarifications = 3

unfoldable pub is_clarification_reason : Option Text → Bool
unfolding starts_with lower mem
is_clarification_reason none = false
is_clarification_reason (some reason) =
    not (is_empty reason)
    && (starts_with (lower reason) (codes "clarification_")
        || mem clarification_reasons (lower reason))

-- The loop over the reversed turns, which breaks at the first turn that is no clarification.
unfoldable pub leading_clarifications : List Turn → ℕ
leading_clarifications [] = 0
leading_clarifications (t ∷ ts) =
    let rest = leading_clarifications ts in
    if is_clarification_reason t.decision_reason then suc rest else 0

unfoldable pub trailing_clarifications : List Turn → ℕ
unfolding leading_clarifications
trailing_clarifications turns = leading_clarifications (reverse turns)

pub record TurnLimitPolicy : Type 0 where
  pub legacy_last_allowed : Bool
  pub speech_budget_exceeded : Bool
  pub assessment_turn_count : Option ℤ
  pub max_assessment_turns : Option ℤ

-- `has_structured_turn_limit`, with the two numbers where it holds.
unfoldable pub structured_turn_limit : TurnLimitPolicy → Option (ℤ × ℤ)
structured_turn_limit p = elim p.assessment_turn_count [
  | none ↦ none
  | some count ↦ elim p.max_assessment_turns [
    | none ↦ none
    | some most ↦ if ltb_ℤ (pos 0) most then some (count, most) else none
  ]
]

-- `count + 1 >= most`
abbrev pub reaches : ℤ → ℤ → Bool
reaches count most = leb (pos_part most + neg_part count) (pos_part count + neg_part most + 1)

abbrev pub max_clarifications_reached : Text
max_clarifications_reached = codes "client_max_clarifications_reached"

abbrev pub speech_budget_reached : Text
speech_budget_reached = codes "client_speech_budget_exceeded"

abbrev pub max_turns_reached : Text
max_turns_reached = codes "client_max_turns_reached"

-- `{**decision, "should_continue": False, "next_prompt_text": None, "reason": reason}`
abbrev pub stopped : Text → Decision → Decision
stopped reason d = record d {
  should_continue = false;
  next_prompt_text = none;
  reason = some reason;
}

-- The tests behind the one on clarifications.
unfoldable pub apply_budgets : TurnLimitPolicy → Decision → Decision
unfolding structured_turn_limit
apply_budgets p d =
    if p.speech_budget_exceeded
    then stopped speech_budget_reached d
    else elim (structured_turn_limit p) [
      | some (count, most) ↦
          if not (is_clarification_reason d.reason) && reaches count most
          then stopped max_turns_reached d
          else d
      | none ↦ if p.legacy_last_allowed then stopped max_turns_reached d else d
    ]

-- `_apply_turn_limit`
unfoldable pub apply_turn_limit : Decision → TurnLimitPolicy → ℕ → Decision
unfolding apply_budgets
apply_turn_limit d p trailing =
    if not d.should_continue
    then d
    else if is_clarification_reason d.reason && leb max_consecutive_clarifications (trailing + 1)
    then stopped max_clarifications_reached d
    else apply_budgets p d
