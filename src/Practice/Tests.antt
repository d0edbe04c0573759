-- ===== src/Practice/Tests.antt =====
-- The theorems on practice at concrete inputs.
use voxenta_agentic_ai.Prelude.{◌≡◌, refl, false, true, none, some, [], codes}
use voxenta_agentic_ai.Realtime.Question.{QuestionContext}
use voxenta_agentic_ai.Realtime.Checkpoint.{
  Values, ResumeState, blank, get_resume_state, read, sort_turns,
}
use voxenta_agentic_ai.Realtime.Session.{apply_resume_state}
use voxenta_agentic_ai.Practice.Session.{
  PracticeQuestionSession, new_practice_session, create_practice_from_archive,
}
use voxenta_agentic_ai.Practice.Coordinator.{
  PracticeCoordinator, NextQuestion, a_question, answer_id_for, resolve_and_push_next_question,
}
use voxenta_agentic_ai.Practice.Resume.{create_practice_from_archive-question}

-- The last question of the session p1.
abbrev next : NextQuestion
next = record {
  question_id = codes "q7";
  question_text = some (codes "Why?");
  slot = some (codes "3");
  min_response_seconds = none;
  max_response_seconds = none;
  last_question = true;
}

abbrev context : QuestionContext
context = record {
  question_text = some (codes "Why?");
  question_type = none;
  duration_seconds = none;
  min_response_seconds = none;
  max_response_seconds = none;
}

abbrev written : Values
written = record blank {
  question = some context;
  paper_item_id = some (codes "3");
  language = some (codes "en-US");
  prompt_text = some (codes "Why?");
}

abbrev coordinator : PracticeCoordinator
coordinator = record { practice_session_id = codes "p1"; active_session = none }

-- This is what the checkpoint has of the answer once the question was pushed.
is_written :
    read
      (resolve_and_push_next_question (a_question next none none) coordinator []).2
      (codes "p1:q7")
    ≡ written
unfolding resolve_and_push_next_question read
is_written = refl

abbrev resumed : ResumeState
resumed = record {
  turns = [];
  active_prompt_text = none;
  question = some context;
  paper_item_id = some (codes "3");
  language = some (codes "en-US");
  prompt_text = some (codes "Why?");
  realtime_transcripts = [];
  speech_budget_elapsed_seconds = none;
  remaining_seconds_at_question_start = none;
}

abbrev fresh : PracticeQuestionSession
fresh =
    new_practice_session (codes "p1:q7") (codes "p1") (codes "q7") (some (codes "3")) (some context)
      (some (codes "Why?")) (codes "en-US") false

abbrev rebuilt : PracticeQuestionSession
rebuilt = record fresh { common = apply_resume_state resumed (fresh.common) }

is_rebuilt :
    create_practice_from_archive (answer_id_for (codes "p1") (codes "q7")) (codes "p1") written
    ≡ some rebuilt
unfolding create_practice_from_archive get_resume_state answer_id_for new_practice_session
    sort_turns
is_rebuilt = refl

create_practice_from_archive-question_example :
    (rebuilt.question_id ≡ codes "q7") × (rebuilt.last_question ≡ false)
create_practice_from_archive-question_example =
    create_practice_from_archive-question (codes "p1") (codes "q7") written (refl, (refl, tt))
      is_rebuilt
