-- ===== src/Realtime/Processor/Ends.antt =====
-- Why every question comes to an end, whatever the model decides.
use voxenta_agentic_ai.Prelude.{
  ℕ, suc, ◌+◌, ◌*◌, ◌≤◌, ◌<◌, pos, ◌≡◌, refl, sym, ap, ◌∙◌, Bool, true, false, not, Option, none,
  some, List, [], ◌∷◌, ◌++◌, length, keep_if, Text, get_or, arith, if◌then◌else◌,
}
use voxenta_agentic_ai.Realtime.Turn.{Turn, Decision}
use voxenta_agentic_ai.Realtime.TurnLimit.{
  TurnLimitPolicy, is_clarification_reason, trailing_clarifications, structured_turn_limit,
  apply_turn_limit,
}
use voxenta_agentic_ai.Realtime.TurnLimit.Limits.{apply_turn_limit_lem, trailing-append}
use voxenta_agentic_ai.Realtime.Session.{
  QuestionSession, build_current_turn, build_decision_state, complete_turn,
}
use voxenta_agentic_ai.Realtime.Processor.{Graph, raw_decision, decide_and_complete}

abbrev is_assessment : Turn → Bool
is_assessment t = not (is_clarification_reason t.decision_reason)

-- The turns that count against the limit.
unfoldable pub assessment_turns : List Turn → ℕ
assessment_turns ts = length (keep_if is_assessment ts)

pub assessment_turns-append :
    (ts : List Turn) (t : Turn)
    → assessment_turns (ts ++ t ∷ [])
      ≡ assessment_turns ts + (if is_clarification_reason t.decision_reason then 0 else 1)
unfolding assessment_turns
assessment_turns-append [] t = ground arith
assessment_turns-append (u ∷ ts) t = ground (arith, assessment_turns-append ts t)

-- `n` turns in a row that the question went on after, from a session without turns. At each of them the
-- client sends the limit `most` and the number of assessment turns so far.
pub data GoesOn (most : ℕ) : QuestionSession → ℕ → Type 0 where
  begin : (s : QuestionSession) → s.turns ≡ [] → GoesOn most s 0
  round :
      {s : QuestionSession} {n : ℕ} (graph : Graph) (text : Text) (words : ℕ) (duration : Option ℕ)
      (policy : TurnLimitPolicy)
      → GoesOn most s n
      → policy.max_assessment_turns ≡ some (pos most)
      → policy.assessment_turn_count ≡ some (pos (assessment_turns s.turns))
      → (decide_and_complete graph text words duration policy s).0.decision.should_continue ≡ true
      → GoesOn most (decide_and_complete graph text words duration policy s).2 (suc n)

-- The bound that each round keeps.
record IsBounded (most : ℕ) (s : QuestionSession) (n : ℕ) : Type 0 where
  counted : n ≤ 3 * assessment_turns s.turns + trailing_clarifications s.turns
  patient : trailing_clarifications s.turns ≤ 2
  within : assessment_turns s.turns < most

structured :
    (p : TurnLimitPolicy) (count most : ℕ)
    → 0 < most
    → p.max_assessment_turns ≡ some (pos most)
    → p.assessment_turn_count ≡ some (pos count)
    → structured_turn_limit p ≡ some (pos count, pos most)
unfolding structured_turn_limit
structured p count most h e f = ground arith

-- What a decision that goes on, and is kept, means for the counts.
keeps_counts :
    (d : Decision) (p : TurnLimitPolicy) (ts : List Turn) (most : ℕ)
    → 0 < most
    → p.max_assessment_turns ≡ some (pos most)
    → p.assessment_turn_count ≡ some (pos (assessment_turns ts))
    → (apply_turn_limit d p (trailing_clarifications ts)).should_continue ≡ true
    → (is_clarification_reason (apply_turn_limit d p (trailing_clarifications ts)).reason ≡ true
        → trailing_clarifications ts + 1 < 3)
      × (is_clarification_reason (apply_turn_limit d p (trailing_clarifications ts)).reason ≡ false
          → assessment_turns ts + 1 < most)
keeps_counts d p ts most h e f c =
    let (goes, (few, spoken, budget), same) =
      (apply_turn_limit_lem d p (trailing_clarifications ts)).0 c in
    let limit = structured p (assessment_turns ts) most h e f in
    (
      λ k. few (ap (λ x. is_clarification_reason x.reason) (sym same) ∙ k),
      λ k.
          let room =
            (rw limit at budget) (ap (λ x. is_clarification_reason x.reason) (sym same) ∙ k) in
          ground (arith, room),
    )

round-IsBounded :
    {most : ℕ} (s : QuestionSession) (n : ℕ) (graph : Graph) (text : Text) (words : ℕ)
    (duration : Option ℕ) (policy : TurnLimitPolicy)
    → 0 < most
    → policy.max_assessment_turns ≡ some (pos most)
    → policy.assessment_turn_count ≡ some (pos (assessment_turns s.turns))
    → (decide_and_complete graph text words duration policy s).0.decision.should_continue ≡ true
    → IsBounded most s n
    → IsBounded most (decide_and_complete graph text words duration policy s).2 (suc n)
unfolding decide_and_complete complete_turn
round-IsBounded {most} s n graph text words duration policy h e f c b =
    let turn = build_current_turn text words duration s in
    let raw = raw_decision (graph (build_decision_state turn s)) in
    let d = apply_turn_limit raw policy (trailing_clarifications s.turns) in
    let done = record turn { decision_reason = some (get_or d.reason []) } in
    let (few, room) = keeps_counts raw policy s.turns most h e f c in
    let same = said d.reason in
    let a = assessment_turns-append s.turns done in
    let t = trailing-append s.turns done in
    record {
      counted = ground (arith, few, room, same, a, t, b.counted, b.patient);
      patient = ground (arith, few, same, t);
      within = ground (arith, room, same, a, b.within);
    }
  where
    said :
        (r : Option Text) → is_clarification_reason (some (get_or r [])) ≡ is_clarification_reason r
    said none = unfold is_clarification_reason in refl
    said (some x) = refl

GoesOn-IsBounded :
    {most n : ℕ} {s : QuestionSession} → 0 < most → GoesOn most s n → IsBounded most s n
unfolding assessment_turns trailing_clarifications
GoesOn-IsBounded h (begin s e) = record {
  counted = omega arith;
  patient = ground (arith, e);
  within = ground (arith, e);
}
GoesOn-IsBounded h (round {s} {n} graph text words duration policy g e f c) =
    round-IsBounded s n graph text words duration policy h e f c (GoesOn-IsBounded h g)

-- Under a limit of `most` assessment turns a question goes on fewer than `3 * most` times, whatever the
-- model decides: clarifications are free, and no more than two of them stand in a row.
pub question_ends : {most n : ℕ} {s : QuestionSession} → 0 < most → GoesOn most s n → n < 3 * most
question_ends h g = let b = GoesOn-IsBounded h g in omega (arith, b.counted, b.patient, b.within)
