-- ===== src/Realtime/Tests/Following.antt =====
-- The theorems on the follow-up graph at concrete inputs.
use voxenta_agentic_ai.Prelude.{
  Text, suc, ◌⊎◌, ◌*◌, ◌/◌, ◌<◌, ◌+◌, ◌≡◌, refl, true, false, none, some, is_some, [], codes,
  get_or, mem, is_space, ap, sym,
}
use voxenta_agentic_ai.Realtime.Turn.{Decision}
use voxenta_agentic_ai.Realtime.TurnLimit
use voxenta_agentic_ai.Realtime.TurnLimit.{TurnLimitPolicy, apply_turn_limit}
use voxenta_agentic_ai.Realtime.Session.{
  QuestionSession, DecisionState, new_session, build_current_turn, build_decision_state,
}
use voxenta_agentic_ai.Realtime.Processor.{GraphResult, raw_decision, decide_and_complete}
use voxenta_agentic_ai.Realtime.Followup.Counting.{count_assessment_turns}
use voxenta_agentic_ai.Realtime.Followup.Decision.{
  Answer, replied, failed, FollowupReply, object, no_object, is_no_object, is_hesitation_only,
}
use voxenta_agentic_ai.Realtime.Followup.Recovery.{
  offtopic, remind, move_on, RecoveryReply, enforce_escalation,
}
use voxenta_agentic_ai.Realtime.Followup.Recovery.Escalation.{HasReminder, enforce_escalation_lem}
use voxenta_agentic_ai.Realtime.Followup.Graph.{
  Models, RawModels, text_followup_graph, invoke_graph,
}
use voxenta_agentic_ai.Realtime.Followup.Graph.Decisions.{invoke_graph_lem, reads_no_object}
use voxenta_agentic_ai.Realtime.Followup.Ends.{HasTrimmedReasons, Rounds, begin, round, graph_ends}
use voxenta_agentic_ai.Realtime.Followup.Patience.{KeepsApart, IsPatient, reminders_are_few}
use voxenta_agentic_ai.Realtime.Tests.Fixtures.{question}

-- The follow-up model asks for more, and the recovery model takes the answer for one beside the topic.
abbrev asks_more : FollowupReply
asks_more = record {
  should_continue = true;
  next_prompt_text = some (codes "And?");
  reason = some (codes "expand");
}

abbrev offtopic_reply : RecoveryReply
offtopic_reply = record {
  action = some (codes " offtopic_move_on");
  spoken_text = none;
  active_prompt_text = none;
}

abbrev models : Models
models = record {
  followup = λ s g. replied asks_more;
  recovery = λ s g. replied offtopic_reply;
  choice = λ texts. codes "Hm.";
  round_ratio = λ a b. a * 100 / b;
}

abbrev s₀ : QuestionSession
s₀ =
    new_session (codes "a1") (codes "e1") none (some question) (some (codes "Why?")) (codes "en-US")
      none

abbrev state : DecisionState
state = build_decision_state (build_current_turn (codes "we like it") 3 none s₀) s₀

abbrev no_limit : TurnLimitPolicy
no_limit = record {
  legacy_last_allowed = false;
  speech_budget_exceeded = false;
  assessment_turn_count = none;
  max_assessment_turns = none;
}

abbrev raw_models : RawModels
raw_models = record {
  followup = λ s g. object asks_more;
  recovery = λ s g. object offtopic_reply;
  choice = λ texts. codes "Hm.";
  round_ratio = λ a b. a * 100 / b;
}

invoke_graph_example :
    ((reads_no_object raw_models state ≡ true) × (invoke_graph raw_models state ≡ none))
    ⊎ ((reads_no_object raw_models state ≡ false)
        × ((r : GraphResult) × (d : Decision) × (invoke_graph raw_models state ≡ some r)
            × (r.decision ≡ some d)
            × (is_some d.next_prompt_text ≡ d.should_continue)
            × (d.should_continue ≡ true → count_assessment_turns state.turns + 1 < 10)))
invoke_graph_example = invoke_graph_lem raw_models state

-- Objects are read, and a list in place of one ends the run.
objects_are_read :
    (reads_no_object raw_models state ≡ false)
    × (invoke_graph (record raw_models { recovery = λ s g. no_object }) state ≡ none)
unfolding is_no_object invoke_graph build_decision_state new_session count_assessment_turns
    build_current_turn is_hesitation_only
objects_are_read = (refl, refl)

-- Off topic for the first time, the candidate is reminded, whatever the model asks for.
redirected :
    (raw_decision (text_followup_graph models state)).reason ≡ some (codes "redirect_offtopic")
unfolding raw_decision text_followup_graph count_assessment_turns build_decision_state new_session
    build_current_turn
redirected = refl

enforce_escalation_example :
    (enforce_escalation (remind offtopic) [] ≡ enforce_escalation (move_on offtopic) [])
    × (HasReminder offtopic [] → enforce_escalation (remind offtopic) [] ≡ remind offtopic)
    × (¬ HasReminder offtopic [] → enforce_escalation (remind offtopic) [] ≡ move_on offtopic)
enforce_escalation_example = enforce_escalation_lem offtopic []

-- The reason of a reply.
abbrev said_of : Answer FollowupReply → Text
said_of (replied r) = get_or r.reason []
said_of (failed x) = []

models-HasTrimmedReasons : HasTrimmedReasons models
unfolding is_space
models-HasTrimmedReasons s g r e =
    let said : get_or r.reason [] ≡ codes "expand" = sym (ap said_of e) in rw said (refl, refl)

models-KeepsApart : KeepsApart models
unfolding mem
models-KeepsApart s g r e =
    let said : get_or r.reason [] ≡ codes "expand" = sym (ap said_of e) in rw said refl

trimmed_round :
    Rounds HasTrimmedReasons
      (decide_and_complete (text_followup_graph models) (codes "we like it") 3 none no_limit s₀).2
      (suc 0)
unfolding decide_and_complete new_session apply_turn_limit raw_decision text_followup_graph
    count_assessment_turns build_decision_state build_current_turn TurnLimit.is_clarification_reason
trimmed_round =
    round models (codes "we like it") 3 none no_limit (begin s₀ refl) models-HasTrimmedReasons refl

graph_ends_example : suc 0 < 30
graph_ends_example = graph_ends trimmed_round

apart_round :
    Rounds KeepsApart
      (decide_and_complete (text_followup_graph models) (codes "we like it") 3 none no_limit s₀).2
      (suc 0)
unfolding decide_and_complete new_session apply_turn_limit raw_decision text_followup_graph
    count_assessment_turns build_decision_state build_current_turn TurnLimit.is_clarification_reason
apart_round =
    round models (codes "we like it") 3 none no_limit (begin s₀ refl) models-KeepsApart refl

reminders_are_few_example :
    IsPatient
      (decide_and_complete
        (text_followup_graph models)
        (codes "we like it")
        3
        none
        no_limit
        s₀).2.turns
reminders_are_few_example = reminders_are_few apart_round
