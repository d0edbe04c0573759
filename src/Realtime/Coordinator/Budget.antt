-- ===== src/Realtime/Coordinator/Budget.antt =====
-- The speech budget of a question across connections.
pub mod Reports
use voxenta_agentic_ai.Prelude.{
  ℕ, ◌<◌, ◌≡◌, refl, pos, false, Option, none, some, List, [], ◌∷◌, Text, text_eq, eq_refl, max,
  leb, arith, inl, inr, Option-cases, ap, ◌∙◌, length, split, or_text, get_or, codes,
}
use voxenta_agentic_ai.Realtime.Turn.{Turn, TranscriptEntry}
use voxenta_agentic_ai.Realtime.Question.{QuestionContext}
use voxenta_agentic_ai.Realtime.Checkpoint.{
  Values, Store, ResumeState, read, update, get_resume_state, persist_speech_budget_elapsed,
}
use voxenta_agentic_ai.Realtime.Session.{
  QuestionSession, new_session, create_from_archive, apply_resume_state, apply_turns, with_turns,
  with_elapsed, complete_turn,
}
use voxenta_agentic_ai.Realtime.Processor.{
  Graph, Recovered, decided, recover_pending, decide_and_complete, report_last, pending_entry,
  from_entry, last_turn,
}
use voxenta_agentic_ai.Realtime.Processor.Recovery.{read-update}
use voxenta_agentic_ai.Realtime.Coordinator.{
  Coordinator, checkpoint_speech_budget, new_budget, resume, resume_session, recovered_of,
}

budget-with_turns :
    (ts : List Turn) (r : ResumeState) (s : QuestionSession)
    → ((with_turns ts r s).speech_budget_elapsed_seconds ≡ s.speech_budget_elapsed_seconds)
      × ((with_turns ts r s).answer_id ≡ s.answer_id)
unfolding with_turns apply_turns
budget-with_turns [] r s = (refl, refl)
budget-with_turns (t ∷ ts) r s = (refl, refl)

resumed_from :
    (v : Values) (q : QuestionContext) (e : ℕ)
    → v.question ≡ some q
    → v.speech_budget_elapsed_seconds ≡ some e
    → (r : ResumeState) × (get_resume_state v ≡ some r) × (r.speech_budget_elapsed_seconds ≡ some e)
unfolding get_resume_state
resumed_from v q e a b = elim (Option-cases (get_resume_state v)) [
  | inl k ↦ absurd (ground arith)
  | inr (r, k) ↦ (r, k, ground arith)
]

with_elapsed-some :
    (o : Option ℕ) (e : ℕ) (s : QuestionSession)
    → o ≡ some e
    → ((with_elapsed o s).speech_budget_elapsed_seconds ≡ max s.speech_budget_elapsed_seconds e)
      × ((with_elapsed o s).answer_id ≡ s.answer_id)
unfolding with_elapsed
with_elapsed-some o e s h = rw h (refl, refl)

-- A session that is rebuilt has the budget of the checkpoint.
create_from_archive-budget :
    (answer attempt : Text) (v : Values) (q : QuestionContext) (e : ℕ)
    → v.question ≡ some q
    → v.speech_budget_elapsed_seconds ≡ some e
    → (s : QuestionSession) × (create_from_archive answer attempt v ≡ some s)
      × (s.speech_budget_elapsed_seconds ≡ e)
      × (s.answer_id ≡ answer)
unfolding create_from_archive apply_resume_state new_session
create_from_archive-budget answer attempt v q e a b =
    let (r, found, kept) = resumed_from v q e a b in
    let fresh =
      new_session answer attempt r.paper_item_id r.question r.prompt_text
        (or_text (get_or r.language []) (codes "en-US")) none in
    let timed = with_elapsed r.speech_budget_elapsed_seconds fresh in
    let (budget, id) = with_elapsed-some r.speech_budget_elapsed_seconds e fresh kept in
    let (budget', id') = budget-with_turns r.turns r timed in
    (
      apply_resume_state r fresh,
      rw (found, create_from_archive) refl,
      omega (arith, budget, budget'),
      id' ∙ id,
    )

reported-budget :
    (ts : List Turn) (s : QuestionSession)
    → ((recovered_of (report_last ts) s).2.speech_budget_elapsed_seconds
        ≡ s.speech_budget_elapsed_seconds)
      × ((recovered_of (report_last ts) s).2.answer_id ≡ s.answer_id)
unfolding recovered_of report_last
reported-budget ts s = elim (Option-cases (last_turn ts)) [
  | inl k ↦ rw (k, report_last, recovered_of) (refl, refl)
  | inr (t, k) ↦ rw (k, report_last, recovered_of) (refl, refl)
]

recovered-budget :
    (graph : Graph) (s : QuestionSession) (store : Store)
    → ((recovered_of (recover_pending graph s store) s).2.speech_budget_elapsed_seconds
        ≡ s.speech_budget_elapsed_seconds)
      × ((recovered_of (recover_pending graph s store) s).2.answer_id ≡ s.answer_id)
unfolding recovered_of recover_pending decide_and_complete complete_turn
recovered-budget graph s store =
    go (pending_entry s.turn_order (get_resume_state (read store s.answer_id)))
  where
    go :
        (o : Option TranscriptEntry)
        → let recovered : Recovered = elim o [
          | none ↦ report_last s.turns
          | some e ↦
              let (result, request, s') =
                decide_and_complete graph e.text
                  (length (split e.text))
                  e.duration_seconds
                  (from_entry e)
                  s in
              decided result request s'
        ] in
          ((recovered_of recovered s).2.speech_budget_elapsed_seconds
            ≡ s.speech_budget_elapsed_seconds)
          × ((recovered_of recovered s).2.answer_id ≡ s.answer_id)
    go none = reported-budget s.turns s
    go (some e) = (refl, refl)

resume-found :
    (graph : Graph) (answer : Text) (d : Coordinator) (store : Store) (s : QuestionSession)
    → create_from_archive answer d.exam_attempt_id (read store answer) ≡ some s
    → (resume graph answer d store).2.active_session
      ≡ some (recovered_of (recover_pending graph s store) s).2
unfolding resume resume_session
resume-found graph answer d store s h = rw (h, resume) refl

-- A session that is resumed has the budget of the checkpoint.
pub resume-budget :
    (graph : Graph) (d : Coordinator) (answer : Text) (q : QuestionContext) (e : ℕ) (store : Store)
    → (read store answer).question ≡ some q
    → (read store answer).speech_budget_elapsed_seconds ≡ some e
    → (s' : QuestionSession) × ((resume graph answer d store).2.active_session ≡ some s')
      × (s'.speech_budget_elapsed_seconds ≡ e)
      × (s'.answer_id ≡ answer)
resume-budget graph d answer q e store asked stored =
    let (r, made, budget, id) =
      create_from_archive-budget answer d.exam_attempt_id (read store answer) q e asked stored in
    let (budget', id') = recovered-budget graph r store in
    (
      (recovered_of (recover_pending graph r store) r).2,
      resume-found graph answer d store r made,
      budget' ∙ budget,
      id' ∙ id,
    )
