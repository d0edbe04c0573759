-- ===== src/Practice/Session.antt =====
-- src/realtime/practice_attempt/session.py. The fields and the operations that repeat those of the exam's
-- session are the exam's, with the id of the practice session in the place of the attempt's, and no seconds that
-- remain.
use voxenta_agentic_ai.Prelude.{
  Bool, false, Option, none, some, [], ◌∷◌, Text, codes, eqb, or_text, get_or, if◌then◌else◌,
}
use voxenta_agentic_ai.Realtime.Question.{QuestionContext}
use voxenta_agentic_ai.Realtime.Checkpoint.{Values, ResumeState, get_resume_state}
use voxenta_agentic_ai.Realtime.Session.{
  QuestionSession, new_session, apply_resume_state, hydrate_from_archive,
}

pub record PracticeQuestionSession : Type 0 where
  pub common : QuestionSession
  pub question_id : Text
  pub last_question : Bool

-- `__init__`
unfoldable pub new_practice_session :
    (answer_id practice_session_id question_id : Text)
    → Option Text
    → Option QuestionContext
    → (prompt_text : Option Text) → (language : Text) → (last_question : Bool)
    → PracticeQuestionSession
unfolding new_session
new_practice_session answer_id session_id question_id item question prompt language last = record {
  common = new_session answer_id session_id item question prompt language none;
  question_id = question_id;
  last_question = last;
}

-- `s.split(":", 1)[1] if ":" in s`
unfoldable pub after_colon : Text → Option Text
after_colon [] = none
after_colon (c ∷ s) = if eqb c 58 then some s else after_colon s

-- The session of what the checkpoint has of the answer, if it has something
unfoldable pub rebuild_practice :
    (answer_id practice_session_id : Text) → Option ResumeState → Option PracticeQuestionSession
unfolding new_practice_session after_colon apply_resume_state
rebuild_practice answer_id session_id none = none
rebuild_practice answer_id session_id (some r) =
    let question_id = get_or (after_colon answer_id) answer_id in
    let session =
      new_practice_session answer_id session_id question_id r.paper_item_id r.question r.prompt_text
        (or_text (get_or r.language []) (codes "en-US")) false in
    some (record session { common = apply_resume_state r session.common })

unfoldable pub create_practice_from_archive :
    (answer_id practice_session_id : Text) → Values → Option PracticeQuestionSession
unfolding rebuild_practice
create_practice_from_archive answer_id session_id v =
    rebuild_practice answer_id session_id (get_resume_state v)

unfoldable pub hydrate_practice : Values → PracticeQuestionSession → PracticeQuestionSession
unfolding hydrate_from_archive
hydrate_practice v s = record s { common = hydrate_from_archive v s.common }
