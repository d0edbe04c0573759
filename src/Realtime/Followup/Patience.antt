-- ===== src/Realtime/Followup/Patience.antt =====
-- How often the recovery node reminds a candidate in the course of a question.
use voxenta_agentic_ai.Prelude.{
  ℕ, ◌+◌, ◌≤◌, ◌≡◌, refl, sym, ap, ◌∙◌, Bool, true, false, Option, some, List, [], ◌∷◌, ◌++◌, Text,
  text_eq, ◌==◌, get_or, arith, if◌then◌else◌, inl, inr, Bool-cases, mem, list_eqb_iff,
}
use voxenta_agentic_ai.Realtime.Turn.{Turn}
use voxenta_agentic_ai.Realtime.TurnLimit.{
  TurnLimitPolicy, trailing_clarifications, apply_turn_limit,
}
use voxenta_agentic_ai.Realtime.TurnLimit.Limits.{apply_turn_limit_lem}
use voxenta_agentic_ai.Realtime.Session.{
  QuestionSession, DecisionState, build_current_turn, build_decision_state, complete_turn,
}
use voxenta_agentic_ai.Realtime.Processor.{raw_decision, decide_and_complete}
use voxenta_agentic_ai.Realtime.Followup.Counting.{
  engagement_violation_reasons, is_violation, is_of_type, count_engagement_violations,
  count_violations_of_type,
}
use voxenta_agentic_ai.Realtime.Followup.Signals.{Signals}
use voxenta_agentic_ai.Realtime.Followup.Decision.{replied, FollowupReply}
use voxenta_agentic_ai.Realtime.Followup.Recovery.{
  Violation, decline, uncooperative, offtopic, language, first_time, clarify_prompt_reason,
}
use voxenta_agentic_ai.Realtime.Followup.Recovery.Escalation.{HasReminder}
use voxenta_agentic_ai.Realtime.Followup.Graph.{Models, text_followup_graph}
use voxenta_agentic_ai.Realtime.Followup.Graph.Reasons.{followup-reason}
use voxenta_agentic_ai.Realtime.Followup.Ends.{Rounds, begin, round, went_on_lem}

-- The follow-up model does not give the reasons of the recovery node.
abbrev pub KeepsApart : Models → Type 0
KeepsApart m =
    (s : DecisionState) (g : Signals) (r : FollowupReply)
    → m.followup s g ≡ replied r
    → mem engagement_violation_reasons (get_or r.reason []) ≡ false

-- No more than two reminders in all, and no more than one of a kind.
abbrev pub IsPatient : List Turn → Type 0
IsPatient turns =
    (count_engagement_violations turns ≤ 2)
    × ((v : Violation) → count_violations_of_type turns (first_time v) ≤ 1)

-- What a turn adds to the counts.
engagement_violations-append :
    (ts : List Turn) (t : Turn)
    → count_engagement_violations (ts ++ t ∷ [])
      ≡ count_engagement_violations ts + (if is_violation t then 1 else 0)
unfolding count_engagement_violations
engagement_violations-append [] t = ground arith
engagement_violations-append (u ∷ ts) t = ground (arith, engagement_violations-append ts t)

violations_of_type-append :
    (ts : List Turn) (t : Turn) (r : Text)
    → count_violations_of_type (ts ++ t ∷ []) r
      ≡ count_violations_of_type ts r + (if is_of_type r t then 1 else 0)
unfolding count_violations_of_type
violations_of_type-append [] t r = ground arith
violations_of_type-append (u ∷ ts) t r = ground (arith, violations_of_type-append ts t r)

first_time-IsReminder : (v : Violation) → mem engagement_violation_reasons (first_time v) ≡ true
unfolding first_time mem
first_time-IsReminder decline = refl
first_time-IsReminder uncooperative = refl
first_time-IsReminder offtopic = refl
first_time-IsReminder language = refl

other_reason :
    (r : Text)
    → mem engagement_violation_reasons r ≡ false
    → (v : Violation) → (r == first_time v) ≡ false
other_reason r h v = elim (Bool-cases (r == first_time v)) [
  | inl e ↦
      let same : r ≡ first_time v = (list_eqb_iff r (first_time v)).0 e in
      absurd (cc (same, h, first_time-IsReminder v))
  | inr e ↦ e
]

-- A turn that is no reminder keeps the counts.
other-IsPatient :
    (ts : List Turn) (t : Turn)
    → mem engagement_violation_reasons (get_or t.decision_reason []) ≡ false
    → IsPatient ts
    → IsPatient (ts ++ t ∷ [])
unfolding is_violation is_of_type
other-IsPatient ts t h (all, each) = (
  ground (arith, engagement_violations-append ts t, h, all),
  λ v.
      let no = other_reason (get_or t.decision_reason []) h v in
      ground (arith, violations_of_type-append ts t (first_time v), no, each v),
)

one_more : (b : Bool) → (if b then 1 else 0) ≤ 1
one_more true = omega arith
one_more false = omega arith

-- So does a reminder that was left.
reminder-IsPatient :
    (ts : List Turn) (t : Turn) (v : Violation)
    → get_or t.decision_reason [] ≡ first_time v
    → HasReminder v ts
    → IsPatient ts
    → IsPatient (ts ++ t ∷ [])
reminder-IsPatient ts t v e (none_yet, few) (all, each) = (
  omega (arith, engagement_violations-append ts t, few, one_more (is_violation t)),
  λ w. elim (Bool-cases (get_or t.decision_reason [] == first_time w)) [
    | inl k ↦
        let same : get_or t.decision_reason [] ≡ first_time w =
          (list_eqb_iff (get_or t.decision_reason []) (first_time w)).0 k in
        let fresh : count_violations_of_type ts (first_time w) ≡ 0 = rw (sym same ∙ e) none_yet in
        omega (
          arith,
          violations_of_type-append ts t (first_time w),
          fresh,
          one_more (is_of_type (first_time w) t),
        )
    | inr k ↦
        let no : is_of_type (first_time w) t ≡ false = unfold is_of_type in k in
        ground (arith, violations_of_type-append ts t (first_time w), no, each w)
  ],
)

round-IsPatient :
    (s : QuestionSession) (m : Models) (text : Text) (words : ℕ) (duration : Option ℕ)
    (policy : TurnLimitPolicy)
    → KeepsApart m
    → (decide_and_complete
        (text_followup_graph m)
        text
        words
        duration
        policy
        s).0.decision.should_continue
      ≡ true
    → IsPatient s.turns
    → IsPatient (decide_and_complete (text_followup_graph m) text words duration policy s).2.turns
unfolding decide_and_complete complete_turn build_decision_state
round-IsPatient s m text words duration policy apart c b =
    let turn = build_current_turn text words duration s in
    let state = build_decision_state turn s in
    let raw = raw_decision (text_followup_graph m state) in
    let d = apply_turn_limit raw policy (trailing_clarifications s.turns) in
    let done = record turn { decision_reason = some (get_or d.reason []) } in
    let (goes, _, same) = (apply_turn_limit_lem raw policy (trailing_clarifications s.turns)).0 c in
    elim ((went_on_lem m state goes).1) [
      | inl (inl (v, e, left)) ↦
          reminder-IsPatient s.turns done v
            (ap (λ x. get_or x.reason []) same ∙ ap (λ o. get_or o []) e) left b
      | inl (inr e) ↦
          let said : get_or d.reason [] ≡ clarify_prompt_reason =
            ap (λ x. get_or x.reason []) same ∙ ap (λ o. get_or o []) e in
          other-IsPatient s.turns done (rw said (unfold mem in refl)) b
      | inr e ↦
          let kept : mem engagement_violation_reasons (get_or raw.reason []) ≡ false = rw e (
            followup-reason (λ r. mem engagement_violation_reasons r ≡ false) (unfold mem in refl)
              (unfold mem in refl) (unfold mem in refl) m.followup m.choice _ state (apart state _)
              (rw e at (goes))) in
          other-IsPatient s.turns done (rw same kept) b
    ]

-- In the course of a question that goes on under this graph, no more than two turns are reminders, and no
-- more than one is of each kind, whatever the recovery model asks for, if the follow-up model does not
-- give the reasons of the recovery node.
pub reminders_are_few : {s : QuestionSession} {n : ℕ} → Rounds KeepsApart s n → IsPatient s.turns
unfolding count_engagement_violations count_violations_of_type
reminders_are_few (begin s e) = (ground (arith, e), λ v. ground (arith, e))
reminders_are_few (round {s} {n} m text words duration policy r apart c) =
    round-IsPatient s m text words duration policy apart c (reminders_are_few r)
