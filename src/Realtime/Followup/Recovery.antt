-- ===== src/Realtime/Followup/Recovery.antt =====
-- RepeatRecoveryNode/repeat_recovery_node_config.py and repeat_recovery_node_helper.py.
pub mod Escalation
use voxenta_agentic_ai.Prelude.{
  ℕ, zero, suc, ◌+◌, Bool, true, false, not, ◌&&◌, ◌||◌, Option, none, some, List, [], ◌∷◌, ◌++◌,
  length, any, keep_if, find?, Text, text_eq, ◌==◌, codes, space, strip, is_empty, or_text, get_or,
  leb, ltb, eqb, if◌then◌else◌,
}
use voxenta_agentic_ai.Realtime.Turn.{Turn, Decision}
use voxenta_agentic_ai.Realtime.Question.{QuestionContext}
use voxenta_agentic_ai.Realtime.Session.{DecisionState}
use voxenta_agentic_ai.Realtime.Followup.Counting.{
  max_clarification_turns, count_violations_of_type, count_engagement_violations,
  decline_repair_reason, remind_respectfully_reason, redirect_offtopic_reason,
  redirect_wrong_language_reason,
}
use voxenta_agentic_ai.Realtime.Followup.Signals.{Signals}
use voxenta_agentic_ai.Realtime.Followup.Decision.{
  Reply, Answer, failed, replied, answer_in, is_no_object, first_text, question_text_of, stops,
}

-- The four kinds of violation, each with a reminder and a way to move on.
pub data Violation : Type 0 where
  decline uncooperative offtopic language : Violation

pub data Action : Type 0 where
  continue_normal_followup clarify_prompt skip_requested : Action
  remind move_on : Violation → Action

-- `_FIRST_TIME_TO_MOVE_ON`, read from the left and from the right
unfoldable pub first_time : Violation → Text
first_time decline = decline_repair_reason
first_time uncooperative = remind_respectfully_reason
first_time offtopic = redirect_offtopic_reason
first_time language = redirect_wrong_language_reason

unfoldable pub move_on_reason : Violation → Text
move_on_reason decline = codes "decline_move_on"
move_on_reason uncooperative = codes "uncooperative_move_on"
move_on_reason offtopic = codes "offtopic_move_on"
move_on_reason language = codes "language_move_on"

abbrev pub clarify_prompt_reason : Text
clarify_prompt_reason = codes "clarify_prompt"

unfoldable pub action_name : Action → Text
unfolding first_time move_on_reason
action_name continue_normal_followup = codes "continue_normal_followup"
action_name clarify_prompt = clarify_prompt_reason
action_name skip_requested = codes "skip_requested"
action_name (remind v) = first_time v
action_name (move_on v) = move_on_reason v

-- `_ALLOWED_ACTIONS`
abbrev pub allowed_actions : List Action
allowed_actions =
    continue_normal_followup
    ∷ clarify_prompt
    ∷ remind decline
    ∷ move_on decline
    ∷ remind uncooperative
    ∷ move_on uncooperative
    ∷ remind offtopic
    ∷ move_on offtopic
    ∷ remind language
    ∷ move_on language
    ∷ skip_requested
    ∷ []

unfoldable pub normalize_action : Option Text → Action
unfolding action_name strip
normalize_action action =
    get_or (find? (λ a. action_name a == strip (get_or action [])) allowed_actions)
      continue_normal_followup

abbrev pub per_type_violation_budget : ℕ
per_type_violation_budget = 1

abbrev pub total_violation_budget : ℕ
total_violation_budget = 2

unfoldable pub enforce_escalation : Action → List Turn → Action
unfolding count_engagement_violations count_violations_of_type first_time
enforce_escalation (remind v) turns =
    if leb per_type_violation_budget (count_violations_of_type turns (first_time v))
      || leb total_violation_budget (count_engagement_violations turns)
    then move_on v
    else remind v
enforce_escalation (move_on v) turns =
    if ltb (count_violations_of_type turns (first_time v)) per_type_violation_budget
      && ltb (count_engagement_violations turns) total_violation_budget
    then remind v
    else move_on v
enforce_escalation continue_normal_followup turns = continue_normal_followup
enforce_escalation clarify_prompt turns = clarify_prompt
enforce_escalation skip_requested turns = skip_requested

-- `str(value or "").strip() or None`
unfoldable pub clean_text : Option Text → Option Text
unfolding strip
clean_text value = let text = strip (get_or value []) in if is_empty text then none else some text

-- `turns[:-1], turns[-1]` if the last turn is the current one
unfoldable pub all_but_last : List Turn → List Turn
all_but_last [] = []
all_but_last (t ∷ []) = []
all_but_last (t ∷ u ∷ ts) = t ∷ all_but_last (u ∷ ts)

unfoldable pub last_of : List Turn → Option Turn
last_of [] = none
last_of (t ∷ []) = some t
last_of (t ∷ u ∷ ts) = last_of (u ∷ ts)

unfoldable pub split_turn_history : List Turn → Turn → List Turn × Turn
unfolding all_but_last last_of
split_turn_history turns current = elim (last_of turns) [
  | none ↦ (turns, current)
  | some t ↦
      if eqb t.turn_order current.turn_order then (all_but_last turns, t) else (turns, current)
]

-- The object of the recovery model.
pub record RecoveryReply : Type 0 where
  pub action : Option Text
  pub spoken_text : Option Text
  pub active_prompt_text : Option Text

-- `f"{prefix} {prompt}".strip() if prompt else prefix`
unfoldable pub with_prefix : Text → Option Text → Option QuestionContext → Text
unfolding first_text
with_prefix prefix prompt question =
    let text = first_text prompt (question_text_of question) in
    if is_empty text then prefix else strip (prefix ++ space ++ text)

abbrev pub paraphrase_prefix : Text
paraphrase_prefix = codes "Sure, let me put that more simply:"

abbrev pub decline_repair_prefix : Text
decline_repair_prefix = codes "That's okay. Let me rephrase it a little:"

abbrev pub offtopic_redirect_prefix : Text
offtopic_redirect_prefix = codes "Let's stay focused on the question -- here it is again:"

abbrev pub wrong_language_redirect_prefix : Text
wrong_language_redirect_prefix = codes "Please try answering in English. Here's the question again:"

abbrev pub remind_prefix : Text
remind_prefix = codes "We need a respectful answer to continue. Let's try this question once more:"

-- The text of a reminder. A prompt that is missing is printed as `None`.
unfoldable pub reminder_text : Violation → Option Text → Option QuestionContext → Text
unfolding with_prefix strip
reminder_text decline prompt question = with_prefix decline_repair_prefix prompt question
reminder_text uncooperative prompt question =
    strip (remind_prefix ++ space ++ get_or prompt (codes "None"))
reminder_text offtopic prompt question = with_prefix offtopic_redirect_prefix prompt question
reminder_text language prompt question = with_prefix wrong_language_redirect_prefix prompt question

-- `_decision_payload` for a decision to go on
abbrev pub asks_again : Text → Option Text → Text → Decision
asks_again reply prompt reason = record {
  should_continue = true;
  next_prompt_text = some reply;
  active_prompt_text = prompt;
  reason = some reason;
}

abbrev pub or_this {ℓ} : {A : Type ℓ} → Option A → Option A → Option A
or_this none b = b
or_this (some a) b = some a

-- The decision of an action, `none` where it is left to the other node.
unfoldable pub act :
    Action → List Turn → Option Text → Option Text → Option QuestionContext → Option Decision
unfolding count_violations_of_type with_prefix reminder_text first_time move_on_reason
act continue_normal_followup prior spoken prompt question = none
act clarify_prompt prior spoken prompt question = some (
    if leb max_clarification_turns (count_violations_of_type prior clarify_prompt_reason + 1)
    then stops (some (codes "clarification_limit_reached"))
    else asks_again (get_or spoken (with_prefix paraphrase_prefix prompt question)) prompt
        clarify_prompt_reason)
act skip_requested prior spoken prompt question = some (stops (some (codes "skip_requested")))
act (remind v) prior spoken prompt question =
    some (asks_again (get_or spoken (reminder_text v prompt question)) prompt (first_time v))
act (move_on v) prior spoken prompt question = some (stops (some (move_on_reason v)))

-- `_resolve_edge_case_decision`, for the turns that the node sees: those before, and the current one.
unfoldable pub resolve_edge_case_decision : DecisionState → RecoveryReply → Action × Option Decision
unfolding split_turn_history normalize_action enforce_escalation clean_text act
resolve_edge_case_decision s reply =
    let (prior, latest) = split_turn_history (s.turns ++ s.current_turn ∷ []) s.current_turn in
    let current =
      or_this (clean_text s.active_prompt_text)
        (or_this (clean_text latest.prompt_text) (clean_text (question_text_of s.question))) in
    let action = enforce_escalation (normalize_action reply.action) prior in
    (
      action,
      act action prior (clean_text reply.spoken_text)
          (or_this (clean_text reply.active_prompt_text) current) s.question,
    )

-- What `repeat_recovery_node` writes: its decision if it handled the turn, and its error.
unfoldable pub repeat_recovery :
    (DecisionState → Signals → Answer RecoveryReply)
    → Signals
    → DecisionState
    → Option Decision × Option Text
unfolding resolve_edge_case_decision
repeat_recovery model signals s = elim (model s signals) [
  | failed error ↦ (none, some (codes "Repeat recovery decision failed: " ++ error))
  | replied reply ↦ ((resolve_edge_case_decision s reply).1, none)
]

-- `repeat_recovery_node`, `none` where it raises.
unfoldable pub repeat_recovery_node :
    (DecisionState → Signals → Reply RecoveryReply)
    → Signals
    → DecisionState
    → Option (Option Decision × Option Text)
unfolding repeat_recovery answer_in is_no_object
repeat_recovery_node model signals s =
    if is_no_object (model s signals)
    then none
    else some (repeat_recovery (λ s' g. answer_in (model s' g)) signals s)
