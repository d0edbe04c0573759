-- ===== src/Realtime/Coordinator.antt =====
-- `QuestionSessionCoordinator` of src/realtime/question/coordinator.py: the active question of one attempt
-- connection. The writes to the checkpoint are taken to succeed. Durations are in milliseconds.
pub mod Budget
use voxenta_agentic_ai.Prelude.{
  ℕ, ◌+◌, ◌-◌, ℤ, pos_part, Bool, true, false, ◌&&◌, Option, none, some, List, [], ◌∷◌, Text,
  text_eq, ◌==◌, get_or, strip, leb, max, if◌then◌else◌, is_empty,
}
use voxenta_agentic_ai.Realtime.Transcript.{VoiceEvent, on_event}
use voxenta_agentic_ai.Realtime.Turn.{Decision}
use voxenta_agentic_ai.Realtime.Question.{QuestionContext}
use voxenta_agentic_ai.Realtime.Checkpoint.{
  Store, read, update, persist_question_snapshot, set_current_answer_id,
  persist_speech_budget_elapsed,
}
use voxenta_agentic_ai.Realtime.Session.{
  QuestionSession, new_session, create_from_archive, hydrate_from_archive,
}
use voxenta_agentic_ai.Realtime.Processor.{
  Graph, PublishRequest, TurnProcessingResult, TurnEnd, Recovered, decided, reported, nothing,
  process, recover_pending,
}

pub record Coordinator : Type 0 where
  pub exam_attempt_id : Text
  pub active_session : Option QuestionSession

-- The message `question_start`. `question_text` is that of the question's payload.
pub record QuestionStart : Type 0 where
  pub answer_id : Text
  pub paper_item_id : Option Text
  pub question : Option QuestionContext
  pub question_text : Option Text
  pub language : Text
  pub remaining_graded_seconds : Option ℤ
  pub remaining_seconds_at_question_start : Option ℤ
  pub section_instruction : Option Text

pub record QuestionStartResult : Type 0 where
  pub answer_id : Text
  pub section_instruction : Text

-- The session is new, the question is written to the checkpoint, and what the checkpoint has of the
-- answer is taken up.
unfoldable pub start_question :
    QuestionStart → Coordinator → Store → QuestionStartResult × Coordinator × Store
unfolding read update persist_question_snapshot set_current_answer_id new_session
    hydrate_from_archive
start_question m c store =
    let session =
      new_session m.answer_id c.exam_attempt_id m.paper_item_id m.question m.question_text
        m.language m.remaining_graded_seconds in
    let written =
      update m.answer_id
        (persist_question_snapshot m.question m.paper_item_id m.language m.question_text
          m.remaining_graded_seconds m.remaining_seconds_at_question_start)
        store in
    let pointed = update c.exam_attempt_id (set_current_answer_id m.answer_id) written in
    (
      record {
        answer_id = m.answer_id;
        section_instruction = strip (get_or m.section_instruction []);
      },
      record c { active_session = some (hydrate_from_archive (read pointed m.answer_id) session) },
      pointed,
    )

unfoldable pub present_question : Option Text → Coordinator → Option Text × Coordinator
present_question none c = (none, c)
present_question (some p) c = (
  some p,
  elim c.active_session [
    | none ↦ c
    | some s ↦
        if is_empty p
        then c
        else record c { active_session = some (record s { current_prompt_text = some p }) }
  ],
)

-- The result and the publish task, if there is an active session.
unfoldable pub process_turn :
    Graph
    → List VoiceEvent
    → TurnEnd
    → Coordinator
    → Store
    → Option (TurnProcessingResult × PublishRequest) × Coordinator × Store
unfolding process
process_turn graph arrivals m c store = elim c.active_session [
  | none ↦ (none, c, store)
  | some s ↦
      let ((result, request, s'), store') = process graph arrivals m s store in
      (some (result, request), record c { active_session = some s' }, store')
]

-- The tests of `checkpoint_speech_budget` on a session: the new elapsed time, if it is written.
-- `elapsed_seconds` is `none` where it is no finite number.
unfoldable pub new_budget : Text → Option ℤ → QuestionSession → Option ℕ
new_budget answer_id none s = none
new_budget answer_id (some elapsed) s =
    if answer_id == s.answer_id
    then (if leb (pos_part elapsed) s.speech_budget_elapsed_seconds
        then none
        else some (pos_part elapsed))
    else none

unfoldable pub checkpoint_speech_budget :
    Text → Option ℤ → Coordinator → Store → Coordinator × Store
unfolding new_budget update persist_speech_budget_elapsed
checkpoint_speech_budget answer_id elapsed c store = elim c.active_session [
  | none ↦ (c, store)
  | some s ↦ elim (new_budget answer_id elapsed s) [
    | none ↦ (c, store)
    | some e ↦ (
      record c { active_session = some (record s { speech_budget_elapsed_seconds = e }) },
      update s.answer_id (persist_speech_budget_elapsed e) store,
    )
  ]
]

pub record ResumeResult : Type 0 where
  pub answer_id : Text
  pub last_archived_turn_order : ℕ
  pub recovered : Option TurnProcessingResult
  pub prompt_to_speak : Option Text

-- What recovery reports, the publish task that it spawns, and the session behind it.
unfoldable pub recovered_of :
    Recovered
    → QuestionSession
    → Option TurnProcessingResult × Option PublishRequest × QuestionSession
recovered_of (decided result request s') s = (some result, some request, s')
recovered_of (reported result) s = (some result, none, s)
recovered_of nothing s = (none, none, s)

-- The rest of `resume` for a session that was rebuilt. The current prompt is spoken again unless a
-- decision was recovered.
unfoldable pub resume_session :
    Graph
    → QuestionSession
    → Coordinator
    → Store
    → ResumeResult × Option PublishRequest × Coordinator
unfolding recover_pending recovered_of
resume_session graph s c store =
    let (recovered, request, s') = recovered_of (recover_pending graph s store) s in
    (
      record {
        answer_id = s.answer_id;
        last_archived_turn_order = s.turn_order - 1;
        recovered = recovered;
        prompt_to_speak = elim recovered [ some result ↦ none | none ↦ s'.current_prompt_text ];
      },
      request,
      record c { active_session = some s' },
    )

unfoldable pub resume :
    Graph → Text → Coordinator → Store → ResumeResult × Option PublishRequest × Coordinator
unfolding read create_from_archive resume_session
resume graph answer_id c store =
    elim (create_from_archive answer_id c.exam_attempt_id (read store answer_id)) [
      | some s ↦ resume_session graph s c store
      | none ↦ (
        record {
          answer_id = answer_id;
          last_archived_turn_order = 0;
          recovered = none;
          prompt_to_speak = none;
        },
        none,
        c,
      )
    ]

-- Whether the event was taken.
unfoldable pub route_voice_event : VoiceEvent → Coordinator → Bool × Coordinator
unfolding on_event
route_voice_event e c = elim c.active_session [
  | none ↦ (false, c)
  | some s ↦
      (true, record c { active_session = some (record s { transcript = on_event e s.transcript }) })
]

unfoldable pub clear : Coordinator → Coordinator
clear c = record c { active_session = none }
