-- ===== src/Realtime/Followup/Graph.antt =====
-- `build_text_followup_graph` of src/node/followUpDecisionGraph/graphConfig.py: the signals, the two nodes
-- that run side by side, and the node that merges them.
pub mod Decisions
pub mod Reasons
use voxenta_agentic_ai.Prelude.{
  ℕ, ◌≡◌, Bool, true, false, ◌&&◌, Option, none, some, is_some, List, [], ◌∷◌, Text, codes,
  is_empty, or_text, get_or, if◌then◌else◌,
}
use voxenta_agentic_ai.Realtime.Turn.{Turn, Decision}
use voxenta_agentic_ai.Realtime.Session.{DecisionState}
use voxenta_agentic_ai.Realtime.Processor.{Graph, GraphResult}
use voxenta_agentic_ai.Realtime.Followup.Signals.{Signals, prepare_turn_signals, max_turns_reached}
use voxenta_agentic_ai.Realtime.Followup.Decision.{
  Reply, Answer, FollowupReply, followup_decision, followup_decision_node, stops, decision_fallback,
}
use voxenta_agentic_ai.Realtime.Followup.Recovery.{
  RecoveryReply, repeat_recovery, repeat_recovery_node,
}

-- The models behind the two nodes where these do not raise, `random.choice`, and `round(a / b, 2)` in hundredths.
pub record Models : Type 0 where
  pub followup : DecisionState → Signals → Answer FollowupReply
  pub recovery : DecisionState → Signals → Answer RecoveryReply
  pub choice : List Text → Text
  pub round_ratio : ℕ → ℕ → ℕ

-- The channels that `merge_decision_node` reads.
pub record Branches : Type 0 where
  pub repeat_recovery_edge_case_handled : Bool
  pub repeat_recovery_decision : Option Decision
  pub repeat_recovery_error : Option Text
  pub followup_decision_result : Option Decision
  pub followup_decision_error : Option Text
  pub signals : Signals

abbrev pub or_none {ℓ} : {A : Type ℓ} → Option A → Option A → Option A
or_none none b = b
or_none (some a) b = some a

-- `a or b`, where an empty text counts as missing
unfoldable pub or_error : Option Text → Option Text → Option Text
or_error none b = b
or_error (some a) b = if is_empty a then b else some a

-- The decision that is chosen, and the error beside it.
unfoldable pub choose_decision : Branches → Decision × Option Text
unfolding or_error
choose_decision b =
    let decision =
      if b.repeat_recovery_edge_case_handled
      then b.repeat_recovery_decision
      else b.followup_decision_result in
    let error =
      if b.repeat_recovery_edge_case_handled
      then b.repeat_recovery_error
      else b.followup_decision_error in
    elim decision [
      | some d ↦ (d, error)
      | none ↦ (
        get_or (or_none b.followup_decision_result b.repeat_recovery_decision)
            (stops (some decision_fallback)),
        or_error error (
            or_error b.followup_decision_error (
              or_error b.repeat_recovery_error
                (some (codes "No decision produced by follow-up graph")))),
      )
    ]

-- `merge_decision_node`
unfoldable pub merge_decision : Branches → GraphResult
unfolding choose_decision
merge_decision b =
    let (decision, error) = choose_decision b in
    record {
      decision = some (
          if b.signals.hard_stop && decision.should_continue
          then stops (some (or_text (get_or b.signals.hard_stop_reason []) max_turns_reached))
          else decision);
      error = error;
    }

unfoldable pub branches : Models → DecisionState → Branches
unfolding followup_decision repeat_recovery prepare_turn_signals
branches m s =
    let signals = prepare_turn_signals m.round_ratio s in
    let (recovered, recovery_error) = repeat_recovery m.recovery signals s in
    let (decided, error) = followup_decision m.followup m.choice signals s in
    record {
      repeat_recovery_edge_case_handled = is_some recovered;
      repeat_recovery_decision = recovered;
      repeat_recovery_error = recovery_error;
      followup_decision_result = some decided;
      followup_decision_error = error;
      signals = signals;
    }

-- The graph, as the turn processor invokes it, where no node raises.
unfoldable pub text_followup_graph : Models → Graph
unfolding branches merge_decision
text_followup_graph m s = merge_decision (branches m s)

-- The models as they reply.
pub record RawModels : Type 0 where
  pub followup : DecisionState → Signals → Reply FollowupReply
  pub recovery : DecisionState → Signals → Reply RecoveryReply
  pub choice : List Text → Text
  pub round_ratio : ℕ → ℕ → ℕ

-- `graph.invoke`, `none` where a node raises: the exception of a node is the one of the run.
unfoldable pub invoke_graph : RawModels → DecisionState → Option GraphResult
unfolding repeat_recovery_node followup_decision_node merge_decision prepare_turn_signals
invoke_graph m s =
    let signals = prepare_turn_signals m.round_ratio s in
    elim (repeat_recovery_node m.recovery signals s) [
      | none ↦ none
      | some recovery ↦ elim (followup_decision_node m.followup m.choice signals s) [
        | none ↦ none
        | some followup ↦ some (
            merge_decision (record {
              repeat_recovery_edge_case_handled = is_some recovery.0;
              repeat_recovery_decision = recovery.0;
              repeat_recovery_error = recovery.1;
              followup_decision_result = some followup.0;
              followup_decision_error = followup.1;
              signals = signals;
            }))
      ]
    ]
