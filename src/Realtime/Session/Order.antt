-- ===== src/Realtime/Session/Order.antt =====
-- The numbering of turns, and what a resume restores.
use voxenta_agentic_ai.Prelude.{
  ℕ, ◌+◌, ◌<◌, ℤ, ◌≡◌, ap, Option, none, some, List, [], ◌∷◌, Text, codes, or_text, get_or, All,
  All-append, arith,
}
use mathlib.Core.Path.{subst}
use voxenta_agentic_ai.Realtime.Question.{QuestionContext}
use voxenta_agentic_ai.Realtime.Turn.{Turn, Decision}
use voxenta_agentic_ai.Realtime.Checkpoint.{Values, ResumeState, get_resume_state}
use voxenta_agentic_ai.Realtime.Session.{
  QuestionSession, new_session, highest_order, apply_turns, with_elapsed, with_turns,
  apply_resume_state, create_from_archive, hydrate_from_archive, build_current_turn, complete_turn,
}

-- The next turn's number is above those of all turns so far.
abbrev pub IsNumbered : QuestionSession → Type 0
IsNumbered s = All (λ t. t.turn_order < s.turn_order) s.turns

below-highest_order :
    (n : ℕ) (ts : List Turn) → highest_order ts < n → All (λ t. t.turn_order < n) ts
unfolding highest_order
below-highest_order n [] h = tt
below-highest_order n (t ∷ ts) h = (omega arith, below-highest_order n ts (omega arith))

All-weaken :
    (n : ℕ) (ts : List Turn) → All (λ t. t.turn_order < n) ts → All (λ t. t.turn_order < n + 1) ts
All-weaken n [] h = tt
All-weaken n (t ∷ ts) h = (omega (arith, h.0), All-weaken n ts h.1)

with_turns-IsNumbered :
    (ts : List Turn) (r : ResumeState) (s : QuestionSession)
    → IsNumbered s
    → IsNumbered (with_turns ts r s)
unfolding with_turns apply_turns
with_turns-IsNumbered [] r s h = h
with_turns-IsNumbered (t ∷ ts) r s h =
    below-highest_order (highest_order r.turns + 1) r.turns (omega arith)

with_elapsed-IsNumbered :
    (elapsed : Option ℕ) (s : QuestionSession) → IsNumbered s → IsNumbered (with_elapsed elapsed s)
unfolding with_elapsed
with_elapsed-IsNumbered none s h = h
with_elapsed-IsNumbered (some n) s h = h

apply_resume_state-IsNumbered :
    (r : ResumeState) (s : QuestionSession) → IsNumbered s → IsNumbered (apply_resume_state r s)
unfolding apply_resume_state
apply_resume_state-IsNumbered r s h =
    with_turns-IsNumbered r.turns r _ (with_elapsed-IsNumbered r.speech_budget_elapsed_seconds s h)

complete_turn-IsNumbered :
    (text : Text) (words : ℕ) (duration : Option ℕ) (d : Decision) (s : QuestionSession)
    → IsNumbered s
    → IsNumbered (complete_turn (build_current_turn text words duration s) d s).1
unfolding complete_turn build_current_turn
complete_turn-IsNumbered text words duration d s h =
    All-append (λ t. t.turn_order < s.turn_order + 1) s.turns _ (All-weaken s.turn_order s.turns h)
      (omega arith, tt)

-- What may happen to a session: a turn is completed, with any transcript and any decision, or the session
-- is hydrated from some checkpoint.
pub data SessionStep (s : QuestionSession) : QuestionSession → Type 0 where
  completed :
      (text : Text) (words : ℕ) (duration : Option ℕ) (d : Decision)
      → SessionStep s (complete_turn (build_current_turn text words duration s) d s).1
  hydrated : (v : Values) → SessionStep s (hydrate_from_archive v s)

-- A session comes from a question that starts, or from a checkpoint.
pub data Session : QuestionSession → Type 0 where
  started :
      (answer_id attempt : Text) (item : Option Text) (q : Option QuestionContext)
      (prompt : Option Text) (language : Text) (remaining : Option ℤ)
      → Session (new_session answer_id attempt item q prompt language remaining)
  restored :
      {s : QuestionSession} (answer_id attempt : Text) (v : Values)
      → create_from_archive answer_id attempt v ≡ some s
      → Session s
  stepped : {s s' : QuestionSession} → Session s → SessionStep s s' → Session s'

hydrate-IsNumbered :
    (v : Values) (s : QuestionSession) → IsNumbered s → IsNumbered (hydrate_from_archive v s)
unfolding hydrate_from_archive
hydrate-IsNumbered v s h = from (get_resume_state v)
  where
    into :
        (r : ResumeState) (ts : List Turn)
        → IsNumbered
            (elim ts as (λ x. QuestionSession) [ [] ↦ s | t ∷ us ↦ apply_resume_state r s ])
    into r [] = h
    into r (t ∷ us) = apply_resume_state-IsNumbered r s h

    from :
        (o : Option ResumeState)
        → IsNumbered (elim o as (λ x. QuestionSession) [
          | none ↦ s
          | some r ↦ elim r.turns [ [] ↦ s | t ∷ us ↦ apply_resume_state r s ]
        ])
    from none = h
    from (some r) = into r r.turns

SessionStep-IsNumbered : {s s' : QuestionSession} → SessionStep s s' → IsNumbered s → IsNumbered s'
SessionStep-IsNumbered {s} (completed text words duration d) h =
    complete_turn-IsNumbered text words duration d s h
SessionStep-IsNumbered {s} (hydrated v) h = hydrate-IsNumbered v s h

IsNumbered-some :
    (s' s : QuestionSession)
    → ◌≡◌ {A = Option QuestionSession} (some s') (some s)
    → IsNumbered s'
    → IsNumbered s
IsNumbered-some s' s p h = subst IsNumbered (ap (λ o. get_or o s') p) h

-- However a session came about and whatever turns and resumes it has been through, the number of its
-- next turn is above those of all its turns: no turn takes the number of another.
pub Session-IsNumbered : {s : QuestionSession} → Session s → IsNumbered s
unfolding new_session create_from_archive
Session-IsNumbered (started a b c d e f g) = tt
Session-IsNumbered {s} (restored a b v e) = from (get_resume_state v) e
  where
    from :
        (o : Option ResumeState)
        → (elim o as (λ x. Option QuestionSession) [
          | none ↦ none
          | some r ↦ some (
              apply_resume_state r (
                new_session a b r.paper_item_id r.question r.prompt_text
                  (or_text (get_or r.language []) (codes "en-US"))
                  none))
        ])
          ≡ some s
        → IsNumbered s
    from none p = cc
    from (some r) p = IsNumbered-some _ s p (apply_resume_state-IsNumbered r _ tt)
Session-IsNumbered (stepped r st) = SessionStep-IsNumbered st (Session-IsNumbered r)
