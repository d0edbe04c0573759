-- ===== src/Practice/Coordinator.antt =====
-- src/realtime/practice_attempt/coordinator.py. The writes to the checkpoint are taken to succeed, and a reply
-- of the Java service with status "ok" to have a question with an id.
use voxenta_agentic_ai.Prelude.{
  ◌-◌, ℤ, Bool, true, false, Option, none, some, List, [], ◌++◌, Text, text_eq, codes, get_or,
  or_text, strip, is_empty, if◌then◌else◌,
}
use voxenta_agentic_ai.Realtime.Transcript.{VoiceEvent, on_event}
use voxenta_agentic_ai.Realtime.Question.{QuestionContext, sanitize_response_window}
use voxenta_agentic_ai.Realtime.Checkpoint.{
  Store, read, update, persist_question_snapshot, set_current_answer_id,
  persist_speech_budget_elapsed,
}
use voxenta_agentic_ai.Realtime.Processor.{
  Graph, TurnProcessingResult, TurnEnd, process, recover_pending,
}
use voxenta_agentic_ai.Realtime.Coordinator.{
  new_budget, recovered_of, ResumeResult, QuestionStartResult,
}
use voxenta_agentic_ai.Practice.Session.{
  PracticeQuestionSession, new_practice_session, create_practice_from_archive, hydrate_practice,
}

pub record PracticeCoordinator : Type 0 where
  pub practice_session_id : Text
  pub active_session : Option PracticeQuestionSession

-- `f"{self.practice_session_id}:{question_id}"`
unfoldable pub answer_id_for : (practice_session_id question_id : Text) → Text
answer_id_for session_id question_id = session_id ++ codes ":" ++ question_id

-- The message `question_start`; `question_text` is that of the question's payload.
pub record PracticeStart : Type 0 where
  pub question_id : Text
  pub paper_item_id : Option Text
  pub question : Option QuestionContext
  pub question_text : Option Text
  pub language : Text
  pub section_instruction : Option Text

-- The question is written to the checkpoint, and the session points to it.
unfoldable pub persist_question :
    (practice_session_id answer_id : Text)
    → Option QuestionContext
    → Option Text
    → (language : Text) → (prompt_text : Option Text) → Store
    → Store
unfolding update persist_question_snapshot set_current_answer_id
persist_question session_id answer_id question item language prompt store =
    update session_id (set_current_answer_id answer_id)
      (update answer_id (persist_question_snapshot question item language prompt none none) store)

unfoldable pub start_practice_question :
    PracticeStart → PracticeCoordinator → Store → QuestionStartResult × PracticeCoordinator × Store
unfolding answer_id_for persist_question new_practice_session hydrate_practice read
start_practice_question m c store =
    let answer_id = answer_id_for c.practice_session_id m.question_id in
    let session =
      new_practice_session answer_id c.practice_session_id m.question_id m.paper_item_id m.question
        m.question_text m.language false in
    let written =
      persist_question c.practice_session_id answer_id m.question m.paper_item_id m.language
        m.question_text store in
    (
      record {
        answer_id = answer_id;
        section_instruction = strip (get_or m.section_instruction []);
      },
      record c { active_session = some (hydrate_practice (read written answer_id) session) },
      written,
    )

unfoldable pub present_practice_question :
    Option Text → PracticeCoordinator → Option Text × PracticeCoordinator
present_practice_question none c = (none, c)
present_practice_question (some p) c = (
  some p,
  elim c.active_session [
    | none ↦ c
    | some s ↦ if is_empty p then c else record c {
      active_session =
          some (record s { common = record (s.common) { current_prompt_text = some p } });
    }
  ],
)

-- The result, if there is an active session. A practice session has no `exam_attempt_id`, so the processor
-- spawns no publish task for it.
unfoldable pub process_practice_turn :
    Graph
    → List VoiceEvent
    → TurnEnd
    → PracticeCoordinator
    → Store
    → Option TurnProcessingResult × PracticeCoordinator × Store
unfolding process
process_practice_turn graph arrivals m c store = elim c.active_session [
  | none ↦ (none, c, store)
  | some s ↦
      let ((result, request, common'), store') = process graph arrivals m s.common store in
      (some result, record c { active_session = some (record s { common = common' }) }, store')
]

-- A next question, as the Java service describes it
pub record NextQuestion : Type 0 where
  pub question_id : Text
  pub question_text : Option Text
  pub slot : Option Text
  pub min_response_seconds : Option ℤ
  pub max_response_seconds : Option ℤ
  pub last_question : Bool

pub data NextReply : Type 0 where
  call_failed : NextReply
  no_question : (reason : Option Text) (spoken budget : Option ℤ) → NextReply
  a_question : (question : NextQuestion) (spoken budget : Option ℤ) → NextReply

pub record NextQuestionPushResult : Type 0 where
  pub ended : Bool
  pub reason : Option Text
  pub answer_id : Option Text
  pub question : Option NextQuestion
  pub prompt_text : Option Text
  pub session_spoken_seconds : Option ℤ
  pub session_budget_seconds : Option ℤ

abbrev pub session_ended : Text → Option ℤ → Option ℤ → NextQuestionPushResult
session_ended reason spoken budget = record {
  ended = true;
  reason = some reason;
  answer_id = none;
  question = none;
  prompt_text = none;
  session_spoken_seconds = spoken;
  session_budget_seconds = budget;
}

unfoldable pub context_of : NextQuestion → QuestionContext
unfolding sanitize_response_window
context_of q = sanitize_response_window (record {
  question_text = q.question_text;
  question_type = none;
  duration_seconds = q.max_response_seconds;
  min_response_seconds = q.min_response_seconds;
  max_response_seconds = q.max_response_seconds;
})

unfoldable pub resolve_and_push_next_question :
    NextReply → PracticeCoordinator → Store → NextQuestionPushResult × PracticeCoordinator × Store
unfolding answer_id_for context_of persist_question new_practice_session
resolve_and_push_next_question call_failed c store =
    (session_ended (codes "next_question_call_failed") none none, c, store)
resolve_and_push_next_question (no_question reason spoken budget) c store =
    (session_ended (or_text (get_or reason []) (codes "no_more_questions")) spoken budget, c, store)
resolve_and_push_next_question (a_question q spoken budget) c store =
    let answer_id = answer_id_for c.practice_session_id q.question_id in
    (
      record {
        ended = false;
        reason = none;
        answer_id = some answer_id;
        question = some q;
        prompt_text = q.question_text;
        session_spoken_seconds = spoken;
        session_budget_seconds = budget;
      },
      record c {
        active_session = some (
            new_practice_session answer_id c.practice_session_id q.question_id
              (some (get_or q.slot (codes "None"))) (some (context_of q)) q.question_text
              (codes "en-US") q.last_question);
      },
      persist_question c.practice_session_id answer_id (some (context_of q)) q.slot (codes "en-US")
          q.question_text store,
    )

-- The elapsed time is `none` where it is no number; infinities and NaN, which the source lets pass, are left out.
unfoldable pub checkpoint_practice_budget :
    Text → Option ℤ → PracticeCoordinator → Store → PracticeCoordinator × Store
unfolding new_budget update persist_speech_budget_elapsed
checkpoint_practice_budget answer_id elapsed c store = elim c.active_session [
  | none ↦ (c, store)
  | some s ↦ elim (new_budget answer_id elapsed s.common) [
    | none ↦ (c, store)
    | some e ↦ (
      record c {
        active_session =
            some (record s { common = record (s.common) { speech_budget_elapsed_seconds = e } });
      },
      update s.common.answer_id (persist_speech_budget_elapsed e) store,
    )
  ]
]

unfoldable pub resume_practice_session :
    Graph
    → PracticeQuestionSession
    → PracticeCoordinator
    → Store
    → ResumeResult × PracticeCoordinator
unfolding recover_pending recovered_of
resume_practice_session graph s c store =
    let (recovered, request, common') =
      recovered_of (recover_pending graph s.common store) s.common in
    (
      record {
        answer_id = s.common.answer_id;
        last_archived_turn_order = s.common.turn_order - 1;
        recovered = recovered;
        prompt_to_speak = elim recovered [
          | some result ↦ none
          | none ↦ common'.current_prompt_text
        ];
      },
      record c { active_session = some (record s { common = common' }) },
    )

-- The message has the id of a question, or else of an answer.
unfoldable pub resume_practice :
    Graph
    → (question_id : Option Text) → (answer_id : Text) → PracticeCoordinator
    → Store
    → ResumeResult × PracticeCoordinator
unfolding answer_id_for read create_practice_from_archive resume_practice_session
resume_practice graph question_id answer_id c store =
    let asked = get_or question_id [] in
    let id = if is_empty asked then answer_id else answer_id_for c.practice_session_id asked in
    elim (create_practice_from_archive id c.practice_session_id (read store id)) [
      | some s ↦ resume_practice_session graph s c store
      | none ↦ (
        record {
          answer_id = id;
          last_archived_turn_order = 0;
          recovered = none;
          prompt_to_speak = none;
        },
        c,
      )
    ]

-- Whether the event was taken.
unfoldable pub route_practice_voice_event :
    VoiceEvent → PracticeCoordinator → Bool × PracticeCoordinator
unfolding on_event
route_practice_voice_event e c = elim c.active_session [
  | none ↦ (false, c)
  | some s ↦ (
    true,
    record c {
      active_session =
          some (record s {
            common = record (s.common) { transcript = on_event e s.common.transcript };
          });
    },
  )
]

unfoldable pub clear_practice : PracticeCoordinator → PracticeCoordinator
clear_practice c = record c { active_session = none }
