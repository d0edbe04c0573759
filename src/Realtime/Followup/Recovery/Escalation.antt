-- ===== src/Realtime/Followup/Recovery/Escalation.antt =====
-- The escalation as a table, and what it means for a decision.
use voxenta_agentic_ai.Prelude.{◌<◌, ◌≡◌, refl, List, leb, arith, ◌||◌, inl, inr, Bool-cases}
use voxenta_agentic_ai.Realtime.Turn.{Turn}
use voxenta_agentic_ai.Realtime.Followup.Counting.{
  count_violations_of_type, count_engagement_violations,
}
use voxenta_agentic_ai.Realtime.Followup.Recovery.{
  Violation, Action, continue_normal_followup, clarify_prompt, skip_requested, remind, move_on,
  first_time, enforce_escalation,
}

-- There is a reminder left: none of this kind was given, and fewer than two in all.
abbrev pub HasReminder : Violation → List Turn → Type 0
HasReminder v turns =
    (count_violations_of_type turns (first_time v) ≡ 0) × (count_engagement_violations turns < 2)

spent :
    (v : Violation) (turns : List Turn)
    → ¬ HasReminder v turns
    → enforce_escalation (remind v) turns ≡ move_on v
unfolding enforce_escalation
spent v turns h =
    elim (Bool-cases (
      leb 1 (count_violations_of_type turns (first_time v))
      || leb 2 (count_engagement_violations turns))) [
        | inl e ↦ rw e refl
        | inr e ↦ absurd (h (ground arith, ground arith))
      ]

-- For each kind of violation it does not matter whether the model asks to remind or to move on: the
-- candidate is reminded if a reminder is left, and else the question moves on. Any other action stays
-- as it is.
pub enforce_escalation_lem :
    (v : Violation) (turns : List Turn)
    → (enforce_escalation (remind v) turns ≡ enforce_escalation (move_on v) turns)
      × (HasReminder v turns → enforce_escalation (remind v) turns ≡ remind v)
      × (¬ HasReminder v turns → enforce_escalation (remind v) turns ≡ move_on v)
unfolding enforce_escalation
enforce_escalation_lem v turns = (ground arith, λ h. ground arith, λ h. spent v turns h)

-- A reminder that is given was left.
pub remind-HasReminder :
    (a : Action) (v : Violation) (turns : List Turn)
    → enforce_escalation a turns ≡ remind v
    → HasReminder v turns
unfolding enforce_escalation
remind-HasReminder continue_normal_followup v turns h = cc
remind-HasReminder clarify_prompt v turns h = cc
remind-HasReminder skip_requested v turns h = cc
remind-HasReminder (remind w) v turns h = ground arith
remind-HasReminder (move_on w) v turns h = ground arith
