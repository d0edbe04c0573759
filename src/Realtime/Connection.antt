-- ===== src/Realtime/Connection.antt =====
-- src/realtime/attempt/connection.py: the audio of a turn and the utterances of one connection. What the
-- coordinator answers is an argument of the handlers, and their acknowledgements are taken to be sent;
-- audio is a list of bytes. Voice events, alerts and the heartbeat are left out.
pub mod Audio
pub mod Utterances
use voxenta_agentic_ai.Prelude.{
  ℕ, suc, ◌+◌, Bool, true, false, not, ◌&&◌, Option, none, some, List, [], ◌∷◌, ◌++◌, Text, text_eq,
  ◌==◌, codes, mem, is_empty, get_or, if◌then◌else◌,
}
use voxenta_agentic_ai.Realtime.Turn.{Decision}
use voxenta_agentic_ai.Realtime.Processor.{TurnProcessingResult}
use voxenta_agentic_ai.Realtime.Coordinator.{QuestionStartResult, ResumeResult}

pub record DeliveryState : Type 0 where
  pub sequence : ℕ
  pub last_delivered_prompt : Option Text

pub record Utterance : Type 0 where
  pub sequence : ℕ
  pub text : Text
  pub slow : Bool

-- The task that saves the audio of a turn.
pub record ArchiveTask : Type 0 where
  pub answer_id : Text
  pub turn_order : ℕ
  pub audio : List ℕ

-- `speaking` holds the tasks of `_speak` that have not sent yet, `archives` the archive tasks in the order
-- in which they are spawned, and `answering` the audio of a turn that is being processed.
pub record Connection : Type 0 where
  pub utterance_sequence : ℕ
  pub last_delivered_prompt : Option Text
  pub turn_audio_buffer : List ℕ
  pub answering : Option (List ℕ)
  pub speaking : List Utterance
  pub archives : List ArchiveTask
  pub turns_without_audio : List (Text × ℕ)

unfoldable pub new_connection : Option DeliveryState → Connection
new_connection state = record {
  utterance_sequence = elim state [ none ↦ 0 | some s ↦ s.sequence ];
  last_delivered_prompt = elim state [ none ↦ none | some s ↦ s.last_delivered_prompt ];
  turn_audio_buffer = [];
  answering = none;
  speaking = [];
  archives = [];
  turns_without_audio = [];
}

unfoldable pub export_delivery_state : Connection → DeliveryState
export_delivery_state c = record {
  sequence = c.utterance_sequence;
  last_delivered_prompt = c.last_delivered_prompt;
}

abbrev pub closing_reply : Text
closing_reply = codes "Thank you for your answer. Let's move on."

abbrev pub exam_farewell_text : Text
exam_farewell_text =
    codes
      "That completes the speaking exam. Thank you for your effort today and good luck with your results!"

-- `_speak`
unfoldable pub speak : Option Text → Bool → Connection → Connection
speak text slow c =
    let sequence = c.utterance_sequence + 1 in
    let said : Utterance = record { sequence = sequence; text = get_or text []; slow = slow } in
    record c { utterance_sequence = sequence; speaking = c.speaking ++ said ∷ [] }

-- `_send_speak`, for the task that was spawned first. Whether the socket takes the message is an argument:
-- `RealtimeSocket.send_json` raises in neither case, so the prompt counts as delivered in both.
unfoldable pub send_speak : Bool → Connection → Connection
send_speak taken c = elim c.speaking [
  | [] ↦ c
  | u ∷ us ↦ record c {
    speaking = us;
    last_delivered_prompt = if is_empty u.text then c.last_delivered_prompt else some u.text;
  }
]

unfoldable pub handle_audio_frame : List ℕ → Connection → Connection
handle_audio_frame bytes c = record c { turn_audio_buffer = c.turn_audio_buffer ++ bytes }

unfoldable pub handle_question_start : QuestionStartResult → Connection → Connection
unfolding speak
handle_question_start result c =
    speak (some result.section_instruction) false (record c { turn_audio_buffer = [] })

-- `_handle_turn_end` up to the call of the coordinator
unfoldable pub cut_turn : Connection → Connection
cut_turn c = record c { answering = some c.turn_audio_buffer; turn_audio_buffer = [] }

-- `decision.get("next_prompt_text") or (None if decision.get("should_continue") else CLOSING_REPLY)`
unfoldable pub next_prompt_of : Decision → Option Text
next_prompt_of d =
    let otherwise = if d.should_continue then none else some closing_reply in
    elim d.next_prompt_text [ none ↦ otherwise | some t ↦ if is_empty t then otherwise else some t ]

abbrev pub slow_reasons : List Text
slow_reasons = codes "clarify_prompt" ∷ codes "decline_repair" ∷ []

-- `_archive_turn`, up to the writes: a turn without audio is only marked.
unfoldable pub archive_turn : Option Text → ℕ → List ℕ → Connection → Connection
archive_turn none order audio c = c
archive_turn (some answer_id) order [] c = record c {
  turns_without_audio = (answer_id, order) ∷ c.turns_without_audio;
}
archive_turn (some answer_id) order (b ∷ bytes) c = record c {
  archives =
      c.archives ++ record { answer_id = answer_id; turn_order = order; audio = b ∷ bytes } ∷ [];
}

-- The rest of `_handle_turn_end`: the answer of the active session, and what the coordinator returns.
unfoldable pub finish_turn : Option Text → Option TurnProcessingResult → Connection → Connection
unfolding archive_turn next_prompt_of speak mem
finish_turn answer_id none c = record c { answering = none }
finish_turn answer_id (some result) c =
    speak (next_prompt_of result.decision) (mem slow_reasons (get_or result.decision.reason [])) (
      archive_turn answer_id result.completed_turn_order (get_or c.answering [])
        (record c { answering = none }))

unfoldable pub resume_prompt : ResumeResult → Option Text
unfolding next_prompt_of
resume_prompt result = elim result.recovered [
  | some recovered ↦ next_prompt_of recovered.decision
  | none ↦ result.prompt_to_speak
]

-- `next_prompt and next_prompt == self._last_delivered_prompt`
unfoldable pub is_repeated : Option Text → Option Text → Bool
is_repeated none last = false
is_repeated (some prompt) none = false
is_repeated (some prompt) (some last) = not (is_empty prompt) && (prompt == last)

unfoldable pub handle_resume : ResumeResult → Connection → Connection
unfolding resume_prompt is_repeated speak
handle_resume result c =
    let prompt = resume_prompt result in
    if is_repeated prompt c.last_delivered_prompt then c else speak prompt false c

-- What happens to the connection of an attempt. At `replaced` a new connection takes the place of one
-- that is still registered, and the client no longer listens to the old one.
pub data Event : Type 0 where
  audio_frame : List ℕ → Event
  question_started : QuestionStartResult → Event
  question_presented : Text → Event
  turn_cut : Event
  turn_finished : Option Text → Option TurnProcessingResult → Event
  resumed : ResumeResult → Event
  exam_ended : Event
  sent : Bool → Event
  replaced : Event

unfoldable pub handle : Event → Connection → Connection
unfolding handle_audio_frame handle_question_start cut_turn finish_turn handle_resume send_speak
    speak new_connection export_delivery_state
handle (audio_frame bytes) c = handle_audio_frame bytes c
handle (question_started result) c = handle_question_start result c
handle (question_presented text) c = speak (some text) false c
handle turn_cut c = cut_turn c
handle (turn_finished answer_id result) c = finish_turn answer_id result c
handle (resumed result) c = handle_resume result c
handle exam_ended c = speak (some exam_farewell_text) false c
handle (sent taken) c = send_speak taken c
handle replaced c = new_connection (some (export_delivery_state c))

unfoldable pub run_events : List Event → Connection → Connection
unfolding handle
run_events [] c = c
run_events (e ∷ es) c = run_events es (handle e c)

-- The utterance that the client gets at an event, and those of a sequence of events.
unfoldable pub heard_at : Event → Connection → List Utterance
heard_at (sent true) c = elim c.speaking [ [] ↦ [] | u ∷ us ↦ u ∷ [] ]
heard_at _ c = []

unfoldable pub heard : List Event → Connection → List Utterance
unfolding heard_at handle
heard [] c = []
heard (e ∷ es) c = heard_at e c ++ heard es (handle e c)

-- The utterance that is handed to the socket at an event, heard or not, and those of a sequence of events.
unfoldable pub handed_at : Event → Connection → List Utterance
handed_at (sent taken) c = elim c.speaking [ [] ↦ [] | u ∷ us ↦ u ∷ [] ]
handed_at _ c = []

unfoldable pub handed : List Event → Connection → List Utterance
unfolding handed_at handle
handed [] c = []
handed (e ∷ es) c = handed_at e c ++ handed es (handle e c)
