-- ===== src/Practice/Resume.antt =====
-- What a practice session has after the connection was lost.
use voxenta_agentic_ai.Prelude.{
  ◌≡◌, ◌∙◌, refl, ap, false, Option, none, some, [], ◌∷◌, Text, eqb, All, get_or,
}
use mathlib.Core.Path.{subst}
use voxenta_agentic_ai.Realtime.Checkpoint.{Values, ResumeState, get_resume_state}
use voxenta_agentic_ai.Practice.Session.{
  PracticeQuestionSession, after_colon, rebuild_practice, create_practice_from_archive,
}
use voxenta_agentic_ai.Practice.Coordinator.{answer_id_for}

-- The text has no colon, as an id in the form of a UUID.
abbrev pub HasNoColon : Text → Type 0
HasNoColon s = All (λ c. eqb c 58 ≡ false) s

after_colon-answer_id_for :
    (session question : Text)
    → HasNoColon session
    → after_colon (answer_id_for session question) ≡ some question
unfolding after_colon answer_id_for
after_colon-answer_id_for [] question h = refl
after_colon-answer_id_for (c ∷ session) question h =
    rw h.0 (after_colon-answer_id_for session question h.1)

rebuild_practice_lem :
    (answer_id session : Text) (found : Option ResumeState) {s : PracticeQuestionSession}
    → rebuild_practice answer_id session found ≡ some s
    → (s.question_id ≡ get_or (after_colon answer_id) answer_id) × (s.last_question ≡ false)
unfolding rebuild_practice
rebuild_practice_lem answer_id session none h = cc
rebuild_practice_lem answer_id session (some r) {s} h =
    subst
      (λ t. (t.question_id ≡ get_or (after_colon answer_id) answer_id) × (t.last_question ≡ false))
      (ap (λ o. get_or o s) h) (refl, refl)

-- If the id of the practice session has no colon, a session that is rebuilt for the answer to a question has the
-- id of that question again; it no longer knows whether the question is the last one.
pub create_practice_from_archive-question :
    (session question : Text) (v : Values) {s : PracticeQuestionSession}
    → HasNoColon session
    → create_practice_from_archive (answer_id_for session question) session v ≡ some s
    → (s.question_id ≡ question) × (s.last_question ≡ false)
unfolding create_practice_from_archive
create_practice_from_archive-question session question v plain h =
    let (same, last) =
      rebuild_practice_lem (answer_id_for session question) session (get_resume_state v) h in
    (
      same
          ∙ ap (λ o. get_or o (answer_id_for session question))
              (after_colon-answer_id_for session question plain),
      last,
    )
