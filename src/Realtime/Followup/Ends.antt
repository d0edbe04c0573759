-- ===== src/Realtime/Followup/Ends.antt =====
-- The turn processor with its own follow-up graph: every question comes to an end, without any limit
-- from the client.
use voxenta_agentic_ai.Prelude.{
  ℕ, suc, ◌+◌, ◌*◌, ◌≤◌, ◌<◌, ◌≡◌, refl, ◌∙◌, true, Option, none, some, List, [], ◌∷◌, ◌++◌, Text,
  get_or, arith, if◌then◌else◌, inl, inr, IsStripped, ◌⊎◌, is_space,
}
use voxenta_agentic_ai.Realtime.Turn.{Turn}
use voxenta_agentic_ai.Realtime.TurnLimit
use voxenta_agentic_ai.Realtime.TurnLimit.{
  TurnLimitPolicy, trailing_clarifications, apply_turn_limit,
}
use voxenta_agentic_ai.Realtime.TurnLimit.Limits.{apply_turn_limit_lem, trailing-append}
use voxenta_agentic_ai.Realtime.Session.{
  QuestionSession, DecisionState, build_current_turn, build_decision_state, complete_turn,
}
use voxenta_agentic_ai.Realtime.Processor.{raw_decision, decide_and_complete}
use voxenta_agentic_ai.Realtime.Processor.Ends.{assessment_turns, assessment_turns-append}
use voxenta_agentic_ai.Realtime.Followup.Counting
use voxenta_agentic_ai.Realtime.Followup.Counting.{count_assessment_turns}
use voxenta_agentic_ai.Realtime.Followup.Signals.{Signals, prepare_turn_signals}
use voxenta_agentic_ai.Realtime.Followup.Decision.{replied, FollowupReply, followup_decision}
use voxenta_agentic_ai.Realtime.Followup.Recovery.{
  Violation, decline, uncooperative, offtopic, language, first_time,
}
use voxenta_agentic_ai.Realtime.Followup.Graph.{Models, text_followup_graph}
use voxenta_agentic_ai.Realtime.Followup.Graph.Decisions.{IsAskedAgain, chosen_lem, decides}
use voxenta_agentic_ai.Realtime.Followup.Graph.Reasons.{followup-reason, clarification_agrees}

-- A decision of the graph to go on: it comes before the tenth turn that counts, and its source is known.
pub went_on_lem :
    (m : Models) (s : DecisionState)
    → let d = raw_decision (text_followup_graph m s) in
      let g = prepare_turn_signals m.round_ratio s in
      d.should_continue ≡ true
      → (count_assessment_turns s.turns + 1 < 10)
        × (IsAskedAgain s.turns d ⊎ (d ≡ (followup_decision m.followup m.choice g s).0))
unfolding raw_decision
went_on_lem m s h =
    let (d, decided, speaks, early) = decides m s in
    let same : raw_decision (text_followup_graph m s) ≡ d = ground arith in
    let (few, chosen) = early (rw same at (h)) in
    let given = same ∙ chosen in (few, rw given ((chosen_lem m s).1 (rw given at (h))))

-- The reasons of the follow-up model have no space around them.
abbrev pub HasTrimmedReasons : Models → Type 0
HasTrimmedReasons m =
    (s : DecisionState) (g : Signals) (r : FollowupReply)
    → m.followup s g ≡ replied r
    → IsStripped (get_or r.reason [])

first_time-IsStripped : (v : Violation) → IsStripped (first_time v)
unfolding first_time is_space
first_time-IsStripped decline = (refl, refl)
first_time-IsStripped uncooperative = (refl, refl)
first_time-IsStripped offtopic = (refl, refl)
first_time-IsStripped language = (refl, refl)

reason-IsStripped :
    (m : Models) (s : DecisionState)
    → HasTrimmedReasons m
    → let d = raw_decision (text_followup_graph m s) in
      d.should_continue ≡ true → IsStripped (get_or d.reason [])
unfolding is_space
reason-IsStripped m s tidy h = elim ((went_on_lem m s h).1) [
  | inl (inl (v, e, left)) ↦ rw e (first_time-IsStripped v)
  | inl (inr e) ↦ rw e (refl, refl)
  | inr e ↦ rw e (
      followup-reason IsStripped (refl, refl) (refl, refl) (refl, refl) m.followup m.choice _ s
        (tidy s _) (rw e at (h)))
]

-- `n` turns in a row that the question went on after, from a session without turns, under this graph with
-- models of one kind and whatever limits the client sends.
pub data Rounds (Fits : Models → Type 0) : QuestionSession → ℕ → Type 0 where
  begin : (s : QuestionSession) → s.turns ≡ [] → Rounds Fits s 0
  round :
      {s : QuestionSession} {n : ℕ} (m : Models) (text : Text) (words : ℕ) (duration : Option ℕ)
      (policy : TurnLimitPolicy)
      → Rounds Fits s n
      → Fits m
      → (decide_and_complete
          (text_followup_graph m)
          text
          words
          duration
          policy
          s).0.decision.should_continue
        ≡ true
      → Rounds Fits
          (decide_and_complete (text_followup_graph m) text words duration policy s).2
          (suc n)

record IsBounded (s : QuestionSession) (n : ℕ) : Type 0 where
  counted : n ≤ 3 * assessment_turns s.turns + trailing_clarifications s.turns
  patient : trailing_clarifications s.turns ≤ 2
  fewer : assessment_turns s.turns ≤ count_assessment_turns s.turns
  within : count_assessment_turns s.turns ≤ 9

count_assessment_turns-append :
    (ts : List Turn) (t : Turn)
    → count_assessment_turns (ts ++ t ∷ [])
      ≡ count_assessment_turns ts
        + (if Counting.is_clarification_reason t.decision_reason then 0 else 1)
unfolding count_assessment_turns
count_assessment_turns-append [] t = ground arith
count_assessment_turns-append (u ∷ ts) t = ground (arith, count_assessment_turns-append ts t)

round-IsBounded :
    (s : QuestionSession) (n : ℕ) (m : Models) (text : Text) (words : ℕ) (duration : Option ℕ)
    (policy : TurnLimitPolicy)
    → HasTrimmedReasons m
    → (decide_and_complete
        (text_followup_graph m)
        text
        words
        duration
        policy
        s).0.decision.should_continue
      ≡ true
    → IsBounded s n
    → IsBounded (decide_and_complete (text_followup_graph m) text words duration policy s).2 (suc n)
unfolding decide_and_complete complete_turn build_decision_state
round-IsBounded s n m text words duration policy tidy c b =
    let turn = build_current_turn text words duration s in
    let state = build_decision_state turn s in
    let raw = raw_decision (text_followup_graph m state) in
    let d = apply_turn_limit raw policy (trailing_clarifications s.turns) in
    let done = record turn { decision_reason = some (get_or d.reason []) } in
    let (goes, (few, spoken, budget), same) =
      (apply_turn_limit_lem raw policy (trailing_clarifications s.turns)).0 c in
    let (early, how) = went_on_lem m state goes in
    let tidy_reason = reason-IsStripped m state tidy goes in
    let agrees = clarification_agrees (some (get_or d.reason [])) (rw same tidy_reason) in
    let first = said d.reason in
    let a = assessment_turns-append s.turns done in
    let t = trailing-append s.turns done in
    let k = count_assessment_turns-append s.turns done in
    record {
      counted = ground (arith, few, first, same, a, t, b.counted, b.patient);
      patient = ground (arith, few, first, same, t);
      fewer = ground (arith, agrees, a, k, b.fewer);
      within = ground (arith, k, early);
    }
  where
    said :
        (r : Option Text)
        → TurnLimit.is_clarification_reason (some (get_or r []))
          ≡ TurnLimit.is_clarification_reason r
    said none = unfold TurnLimit.is_clarification_reason in refl
    said (some x) = refl

Rounds-IsBounded : {s : QuestionSession} {n : ℕ} → Rounds HasTrimmedReasons s n → IsBounded s n
unfolding assessment_turns trailing_clarifications count_assessment_turns
Rounds-IsBounded (begin s e) = record {
  counted = omega arith;
  patient = ground (arith, e);
  fewer = ground (arith, e);
  within = ground (arith, e);
}
Rounds-IsBounded (round {s} {n} m text words duration policy r tidy c) =
    round-IsBounded s n m text words duration policy tidy c (Rounds-IsBounded r)

-- Under this graph, a question goes on after fewer than 30 turns, whatever the models say and whatever
-- limits the client sends, if the reasons of the follow-up model have no space around them.
pub graph_ends : {s : QuestionSession} {n : ℕ} → Rounds HasTrimmedReasons s n → n < 30
graph_ends r = let b = Rounds-IsBounded r in omega (arith, b.counted, b.patient, b.fewer, b.within)
