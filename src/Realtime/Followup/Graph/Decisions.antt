-- ===== src/Realtime/Followup/Graph/Decisions.antt =====
-- What the graph decides, whatever the models say.
use voxenta_agentic_ai.Prelude.{
  ◌&&◌, ◌||◌, Bool, or_text, ◌+◌, ◌<◌, ◌≡◌, refl, ap, true, false, Option, none, some, is_some,
  List, [], ◌∷◌, ◌++◌, Text, text_eq, arith, leb, inl, inr, Bool-cases, Option-cases, get_or, ◌⊎◌,
}
use voxenta_agentic_ai.Realtime.Turn.{Turn, Decision}
use voxenta_agentic_ai.Realtime.Session.{DecisionState}
use voxenta_agentic_ai.Realtime.Question.{QuestionContext}
use voxenta_agentic_ai.Realtime.Processor.{GraphResult}
use voxenta_agentic_ai.Realtime.Followup.Counting.{max_turns, count_assessment_turns}
use voxenta_agentic_ai.Realtime.Followup.Signals.{Signals, prepare_turn_signals, max_turns_reached}
use voxenta_agentic_ai.Realtime.Followup.Decision.{
  Answer, failed, replied, answer_in, is_no_object, asks_model, followup_decision_node,
  FollowupReply, followup_decision, check_reply, asks_nothing, stops, question_text_of,
  handled_edge_case_decision,
}
use voxenta_agentic_ai.Realtime.Followup.Recovery.{
  Action, continue_normal_followup, clarify_prompt, skip_requested, remind, move_on, act,
  RecoveryReply, repeat_recovery, repeat_recovery_node, resolve_edge_case_decision, first_time,
  split_turn_history, last_of, all_but_last, Violation, clarify_prompt_reason, enforce_escalation,
  normalize_action, clean_text, or_this,
}
use voxenta_agentic_ai.Realtime.Followup.Recovery.Escalation.{HasReminder, remind-HasReminder}
use voxenta_agentic_ai.Realtime.Followup.Graph.{
  Models, RawModels, invoke_graph, branches, choose_decision, merge_decision, text_followup_graph,
}

-- A decision to go on has something to ask, and a decision to stop has not.
abbrev pub SpeaksWell : Decision → Type 0
SpeaksWell d = is_some d.next_prompt_text ≡ d.should_continue

asks_nothing-false : (o : Option Text) → asks_nothing o ≡ false → is_some o ≡ true
unfolding asks_nothing
asks_nothing-false none h = cc
asks_nothing-false (some t) h = refl

check_reply-SpeaksWell : (g : Signals) (r : FollowupReply) → SpeaksWell (check_reply g r)
unfolding check_reply
check_reply-SpeaksWell g r = ground (arith, asks_nothing-false r.next_prompt_text)

edge_case-SpeaksWell :
    (choice : List Text → Text) (g : Signals) (s : DecisionState) {d : Decision}
    → handled_edge_case_decision choice g s ≡ some d
    → SpeaksWell d
unfolding handled_edge_case_decision
edge_case-SpeaksWell choice g s h = ground arith

followup-SpeaksWell :
    (model : DecisionState → Signals → Answer FollowupReply) (choice : List Text → Text)
    (g : Signals) (s : DecisionState)
    → SpeaksWell (followup_decision model choice g s).0
unfolding followup_decision
followup-SpeaksWell model choice g s = elim (Option-cases (handled_edge_case_decision choice g s)) [
  | inl e ↦ go (model s g) refl
  | inr (d, e) ↦ ground (arith, edge_case-SpeaksWell choice g s e)
]
  where
    go :
        (a : Answer FollowupReply)
        → model s g ≡ a
        → SpeaksWell (followup_decision model choice g s).0
    go (failed x) e' = ground arith
    go (replied r) e' = ground (arith, check_reply-SpeaksWell g r)

act-SpeaksWell :
    (a : Action) (prior : List Turn) (spoken prompt : Option Text) (q : Option QuestionContext)
    {d : Decision}
    → act a prior spoken prompt q ≡ some d
    → SpeaksWell d
unfolding act
act-SpeaksWell continue_normal_followup prior spoken prompt q h = cc
act-SpeaksWell clarify_prompt prior spoken prompt q h = ground arith
act-SpeaksWell skip_requested prior spoken prompt q h = ground arith
act-SpeaksWell (remind v) prior spoken prompt q h = ground arith
act-SpeaksWell (move_on v) prior spoken prompt q h = ground arith

split_turn_history-append :
    (ts : List Turn) (t : Turn) → split_turn_history (ts ++ t ∷ []) t ≡ (ts, t)
unfolding split_turn_history
split_turn_history-append ts t = ground (arith, last_of-append ts t, all_but_last-append ts t)
  where
    last_of-append : (ts : List Turn) (t : Turn) → last_of (ts ++ t ∷ []) ≡ some t
    last_of-append [] t = refl
    last_of-append (u ∷ []) t = refl
    last_of-append (u ∷ v ∷ ts) t = last_of-append (v ∷ ts) t

    all_but_last-append : (ts : List Turn) (t : Turn) → all_but_last (ts ++ t ∷ []) ≡ ts
    all_but_last-append [] t = refl
    all_but_last-append (u ∷ []) t = refl
    all_but_last-append (u ∷ v ∷ ts) t = ap (λ l. u ∷ l) (all_but_last-append (v ∷ ts) t)

-- A turn that is asked again by the recovery node: a reminder that was left, or a clarification.
abbrev pub IsAskedAgain : List Turn → Decision → Type 0
IsAskedAgain turns d =
    ((v : Violation) × (d.reason ≡ some (first_time v)) × HasReminder v turns)
    ⊎ (d.reason ≡ some clarify_prompt_reason)

act-IsAskedAgain :
    (a : Action) (prior : List Turn) (spoken prompt : Option Text) (q : Option QuestionContext)
    {d : Decision}
    → ((v : Violation) → a ≡ remind v → HasReminder v prior)
    → act a prior spoken prompt q ≡ some d
    → d.should_continue ≡ true
    → IsAskedAgain prior d
unfolding act
act-IsAskedAgain continue_normal_followup prior spoken prompt q left h k = cc
act-IsAskedAgain clarify_prompt prior spoken prompt q left h k = inr (ground arith)
act-IsAskedAgain skip_requested prior spoken prompt q left h k = absurd (ground arith)
act-IsAskedAgain (remind v) prior spoken prompt q left h k = inl (v, ground arith, left v refl)
act-IsAskedAgain (move_on v) prior spoken prompt q left h k = absurd (ground arith)

resolve_lem :
    (s : DecisionState) (r : RecoveryReply) {d : Decision}
    → (resolve_edge_case_decision s r).1 ≡ some d
    → SpeaksWell d × (d.should_continue ≡ true → IsAskedAgain s.turns d)
unfolding resolve_edge_case_decision
resolve_lem s r {d} h =
    let whole = split_turn_history-append s.turns s.current_turn in
    let action = enforce_escalation (normalize_action r.action) s.turns in
    let prompt = or_this (clean_text r.active_prompt_text) (
      or_this (clean_text s.active_prompt_text) (
        or_this (clean_text s.current_turn.prompt_text)
          (clean_text (question_text_of s.question)))) in
    let acted : act action s.turns (clean_text r.spoken_text) prompt s.question ≡ some d =
      rw (whole, resolve_edge_case_decision) at (h) in
    (
      act-SpeaksWell action s.turns _ _ s.question acted,
      act-IsAskedAgain action s.turns _ _ s.question
          (λ v. remind-HasReminder (normalize_action r.action) v s.turns) acted,
    )

recovery_lem :
    (model : DecisionState → Signals → Answer RecoveryReply) (g : Signals) (s : DecisionState)
    {d : Decision}
    → (repeat_recovery model g s).0 ≡ some d
    → SpeaksWell d × (d.should_continue ≡ true → IsAskedAgain s.turns d)
unfolding repeat_recovery
recovery_lem model g s {d} h = go (model s g) refl
  where
    go :
        (a : Answer RecoveryReply)
        → model s g ≡ a
        → SpeaksWell d × (d.should_continue ≡ true → IsAskedAgain s.turns d)
    go (failed x) e = absurd (ground arith)
    go (replied r) e = resolve_lem s r {d = d} (ground arith)

-- The decision that the nodes come to, before the hard stop: asked again by the one, or decided by the
-- other.
pub chosen_lem :
    (m : Models) (s : DecisionState)
    → let g = prepare_turn_signals m.round_ratio s in
      let d = (choose_decision (branches m s)).0 in
      SpeaksWell d
      × (d.should_continue ≡ true
          → IsAskedAgain s.turns d ⊎ (d ≡ (followup_decision m.followup m.choice g s).0))
unfolding choose_decision branches
chosen_lem m s =
    let g = prepare_turn_signals m.round_ratio s in
    elim (Option-cases (repeat_recovery m.recovery g s).0) [
      | inl e ↦ rw e (followup-SpeaksWell m.followup m.choice g s, λ h. inr refl)
      | inr (d, e) ↦
          let (speaks, asked) = recovery_lem m.recovery g s e in rw e (speaks, λ h. inl (asked h))
    ]

pub decides :
    (m : Models) (s : DecisionState)
    → (d : Decision) × ((text_followup_graph m s).decision ≡ some d)
      × SpeaksWell d
      × (d.should_continue ≡ true
          → (count_assessment_turns s.turns + 1 < 10) × (d ≡ (choose_decision (branches m s)).0))
unfolding text_followup_graph merge_decision
decides m s =
    let chosen = (choose_decision (branches m s)).0 in
    elim (Bool-cases
      (leb max_turns (count_assessment_turns s.turns + 1) && chosen.should_continue)) [
        | inl e ↦ (
          stops (some (or_text (get_or (some max_turns_reached) []) max_turns_reached)),
          ground arith,
          refl,
          λ h. absurd (ground arith),
        )
        | inr e ↦ (chosen, rw e refl, (chosen_lem m s).0, λ h. (ground arith, refl))
      ]

-- The models where their replies are read.
abbrev answering : RawModels → Models
answering m = record {
  followup = λ s g. answer_in (m.followup s g);
  recovery = λ s g. answer_in (m.recovery s g);
  choice = m.choice;
  round_ratio = m.round_ratio;
}

-- A node reads a reply that is no object: the recovery node, which asks its model in any case, or the
-- follow-up node, where it comes to ask.
abbrev pub reads_no_object : RawModels → DecisionState → Bool
reads_no_object m s =
    let g = prepare_turn_signals m.round_ratio s in
    is_no_object (m.recovery s g) || (asks_model m.choice g s && is_no_object (m.followup s g))

invoke_graph-answering :
    (m : RawModels) (s : DecisionState)
    → ((reads_no_object m s ≡ true) × (invoke_graph m s ≡ none))
      ⊎ ((reads_no_object m s ≡ false)
          × (invoke_graph m s ≡ some (text_followup_graph (answering m) s)))
unfolding invoke_graph text_followup_graph branches repeat_recovery_node followup_decision_node
invoke_graph-answering m s =
    let g = prepare_turn_signals m.round_ratio s in
    elim (Bool-cases (is_no_object (m.recovery s g))) [
      | inl e ↦
          let recovery : repeat_recovery_node m.recovery g s ≡ none =
            rw (e, repeat_recovery_node) refl in
          inl (rw e refl, rw (recovery, invoke_graph) refl)
      | inr e ↦
          let recovery : repeat_recovery_node m.recovery g s
              ≡ some (repeat_recovery (answering m).recovery g s) =
            rw (e, repeat_recovery_node) refl in
          elim (Bool-cases (asks_model m.choice g s && is_no_object (m.followup s g))) [
            | inl k ↦
                let followup : followup_decision_node m.followup m.choice g s ≡ none =
                  rw (k, followup_decision_node) refl in
                inl (rw (e, k) refl, rw (recovery, followup, invoke_graph) refl)
            | inr k ↦
                let followup : followup_decision_node m.followup m.choice g s
                    ≡ some (followup_decision (answering m).followup m.choice g s) =
                  rw (k, followup_decision_node) refl in
                inr (rw (e, k) refl, rw (recovery, followup, invoke_graph) refl)
          ]
    ]

-- The graph raises exactly if a node reads a reply that is JSON but no object. Else it decides, whatever
-- the models say: a decision to go on comes with a prompt, and only before the tenth turn that counts; a
-- decision to stop comes with none.
pub invoke_graph_lem :
    (m : RawModels) (s : DecisionState)
    → ((reads_no_object m s ≡ true) × (invoke_graph m s ≡ none))
      ⊎ ((reads_no_object m s ≡ false)
          × ((r : GraphResult) × (d : Decision) × (invoke_graph m s ≡ some r)
              × (r.decision ≡ some d)
              × (is_some d.next_prompt_text ≡ d.should_continue)
              × (d.should_continue ≡ true → count_assessment_turns s.turns + 1 < 10)))
invoke_graph_lem m s = elim (invoke_graph-answering m s) [
  | inl raises ↦ inl raises
  | inr (read, result) ↦
      let (d, decided, speaks, early) = decides (answering m) s in
      inr
        (read, (text_followup_graph (answering m) s, d, result, decided, speaks, λ h. (early h).0))
]
