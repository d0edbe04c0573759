-- ===== src/Realtime/Coordinator/Budget/Reports.antt =====
-- The reports of a client on the speech of one question, and the resume behind them.
use voxenta_agentic_ai.Prelude.{
  ℕ, ℤ, ◌<◌, ◌≡◌, ◌⊎◌, refl, sym, ap, ◌∙◌, true, false, Option, none, some, List, [], ◌∷◌, Text,
  text_eq, ◌==◌, eq_refl, max, pos_part, leb, arith, inl, inr, Bool-cases,
}
use mathlib.Core.Path.{subst}
use voxenta_agentic_ai.Realtime.Question.{QuestionContext}
use voxenta_agentic_ai.Realtime.Checkpoint.{Store, read, update, persist_speech_budget_elapsed}
use voxenta_agentic_ai.Realtime.Session.{QuestionSession}
use voxenta_agentic_ai.Realtime.Processor.{Graph}
use voxenta_agentic_ai.Realtime.Processor.Recovery.{read-update}
use voxenta_agentic_ai.Realtime.Coordinator.{
  Coordinator, checkpoint_speech_budget, new_budget, resume,
}
use voxenta_agentic_ai.Realtime.Coordinator.Budget.{resume-budget}

-- The reports of a client, one behind the other.
abbrev pub reports : Text → List (Option ℤ) → Coordinator → Store → Coordinator × Store
reports answer [] c store = (c, store)
reports answer (o ∷ os) c store =
    let (c', store') = checkpoint_speech_budget answer o c store in reports answer os c' store'

-- The longest time of the reports that are numbers, if it exceeds `e`.
abbrev pub longest : ℕ → List (Option ℤ) → ℕ
longest e [] = e
longest e (none ∷ os) = longest e os
longest e (some n ∷ os) = longest (max e (pos_part n)) os

-- A session for the answer is active with the budget `e`, and the checkpoint has the question and, unless
-- the budget is still `start`, the budget.
record Budgeted (answer : Text) (q : QuestionContext) (start e : ℕ) (c : Coordinator)
    (store : Store) : Type 0 where
  session : QuestionSession
  active : c.active_session ≡ some session
  id : session.answer_id ≡ answer
  budget : session.speech_budget_elapsed_seconds ≡ e
  asked : (read store answer).question ≡ some q
  written : (e ≡ start) ⊎ ((read store answer).speech_budget_elapsed_seconds ≡ some e)

report-shorter :
    (answer : Text) (q : QuestionContext) (start e : ℕ) (c : Coordinator) (store : Store) (n : ℤ)
    (b : Budgeted answer q start e c store)
    → leb (pos_part n) e ≡ true
    → checkpoint_speech_budget answer (some n) c store ≡ (c, store)
unfolding checkpoint_speech_budget new_budget
report-shorter answer q start e c store n b h =
    let short : leb (pos_part n) b.session.speech_budget_elapsed_seconds ≡ true = rw b.budget h in
    let hit : (answer == b.session.answer_id) ≡ true = rw b.id (eq_refl answer) in
    rw (b.active, checkpoint_speech_budget, hit, short)
      (ap {B = Coordinator × Store} (λ a. (record c { active_session = a }, store)) b.active)

report-longer :
    (answer : Text) (q : QuestionContext) (start e : ℕ) (c : Coordinator) (store : Store) (n : ℤ)
    (b : Budgeted answer q start e c store)
    → leb (pos_part n) e ≡ false
    → checkpoint_speech_budget answer (some n) c store ≡ (
      record c {
        active_session = some (record b.session { speech_budget_elapsed_seconds = pos_part n });
      },
      update b.session.answer_id (persist_speech_budget_elapsed (pos_part n)) store,
    )
unfolding checkpoint_speech_budget new_budget
report-longer answer q start e c store n b h =
    let long : leb (pos_part n) b.session.speech_budget_elapsed_seconds ≡ false = rw b.budget h in
    let hit : (answer == b.session.answer_id) ≡ true = rw b.id (eq_refl answer) in
    rw (b.active, checkpoint_speech_budget, hit, long) refl

report-none :
    (answer : Text) (c : Coordinator) (store : Store)
    → checkpoint_speech_budget answer none c store ≡ (c, store)
unfolding checkpoint_speech_budget new_budget
report-none answer c store = ground arith

report-Budgeted :
    (answer : Text) (q : QuestionContext) (start e : ℕ) (c : Coordinator) (store : Store) (n : ℤ)
    → Budgeted answer q start e c store
    → let (c', store') = checkpoint_speech_budget answer (some n) c store in
      Budgeted answer q start (max e (pos_part n)) c' store'
unfolding persist_speech_budget_elapsed
report-Budgeted answer q start e c store n b = elim (Bool-cases (leb (pos_part n) e)) [
  | inl h ↦
      let same : max e (pos_part n) ≡ e = ground arith in
      rw (report-shorter answer q start e c store n b h, same) b
  | inr h ↦
      let more : max e (pos_part n) ≡ pos_part n = ground arith in
      let write = persist_speech_budget_elapsed (pos_part n) in
      let stored : read (update b.session.answer_id write store) answer
          ≡ write (read store answer) =
        subst (λ a. read (update a write store) answer ≡ write (read store answer)) (sym b.id)
          (read-update answer write store) in
      rw (report-longer answer q start e c store n b h, more)
        (record {
          session = record b.session { speech_budget_elapsed_seconds = pos_part n };
          active = refl;
          id = b.id;
          budget = refl;
          asked = ap (λ v. v.question) stored ∙ b.asked;
          written = inr (ap (λ v. v.speech_budget_elapsed_seconds) stored);
        })
]

reports-Budgeted :
    (answer : Text) (q : QuestionContext) (start e : ℕ) (os : List (Option ℤ)) (c : Coordinator)
    (store : Store)
    → Budgeted answer q start e c store
    → let (c', store') = reports answer os c store in
      Budgeted answer q start (longest e os) c' store'
reports-Budgeted answer q start e [] c store b = b
reports-Budgeted answer q start e (none ∷ os) c store b =
    subst
      (λ p.
        Budgeted answer q start (longest e os) (reports answer os p.0 p.1).0
          (reports answer os p.0 p.1).1)
      (sym (report-none answer c store)) (reports-Budgeted answer q start e os c store b)
reports-Budgeted answer q start e (some n ∷ os) c store b =
    let (c', store') = checkpoint_speech_budget answer (some n) c store in
    reports-Budgeted answer q start (max e (pos_part n)) os c' store'
      (report-Budgeted answer q start e c store n b)

-- Let a session be active whose question is in the checkpoint, and let the client report any times for its
-- answer, one behind the other, of which at least one exceeds the budget of the session. A resume of the
-- answer directly behind them, by whatever coordinator of whatever attempt, makes a session for the answer
-- active that has the longest reported time as its budget.
pub resume-reports :
    (graph : Graph) (c d : Coordinator) (s : QuestionSession) (q : QuestionContext) (store : Store)
    (os : List (Option ℤ))
    → c.active_session ≡ some s
    → (read store s.answer_id).question ≡ some q
    → s.speech_budget_elapsed_seconds < longest s.speech_budget_elapsed_seconds os
    → let store' = (reports s.answer_id os c store).1 in
      (s' : QuestionSession) × ((resume graph s.answer_id d store').2.active_session ≡ some s')
      × (s'.speech_budget_elapsed_seconds ≡ longest s.speech_budget_elapsed_seconds os)
      × (s'.answer_id ≡ s.answer_id)
resume-reports graph c d s q store os active asked longer =
    let start = s.speech_budget_elapsed_seconds in
    let b = reports-Budgeted s.answer_id q start start os c store (record {
      session = s;
      active = active;
      id = refl;
      budget = refl;
      asked = asked;
      written = inl refl;
    }) in
    elim b.written [
      | inl e ↦ absurd (omega (arith, e, longer))
      | inr stored ↦
          resume-budget graph d s.answer_id q (longest start os) (reports s.answer_id os c store).1
            b.asked stored
    ]
