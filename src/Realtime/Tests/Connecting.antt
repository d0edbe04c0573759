-- ===== src/Realtime/Tests/Connecting.antt =====
-- The theorems on a connection at concrete inputs.
use voxenta_agentic_ai.Prelude.{◌≡◌, refl, true, false, none, some, List, [], ◌∷◌, ◌++◌, map, codes}
use voxenta_agentic_ai.Realtime.Processor.{TurnProcessingResult}
use voxenta_agentic_ai.Realtime.Coordinator.{QuestionStartResult, ResumeResult}
use voxenta_agentic_ai.Realtime.Connection.{
  Event, audio_frame, question_started, turn_cut, turn_finished, resumed, sent, replaced,
  new_connection, run_events, handle, heard, handed, resume_prompt,
}
use voxenta_agentic_ai.Realtime.Connection.Utterances.{Rises, utterances_rise, handle_resume_lem}
use voxenta_agentic_ai.Realtime.Connection.Audio.{Archived, turn_audio-Archived}
use voxenta_agentic_ai.Realtime.Tests.Fixtures.{go_on}

abbrev started : QuestionStartResult
started = record { answer_id = codes "a1"; section_instruction = codes "Part one." }

abbrev answered : TurnProcessingResult
answered = record { decision = go_on; completed_turn_order = 1 }

abbrev again : ResumeResult
again = record {
  answer_id = codes "a1";
  last_archived_turn_order = 1;
  recovered = some answered;
  prompt_to_speak = none;
}

-- A question, an answer of two frames, the follow-up, and a new connection.
abbrev events : List Event
events =
    audio_frame (9 ∷ [])
    ∷ question_started started
    ∷ sent true
    ∷ audio_frame (1 ∷ 2 ∷ [])
    ∷ audio_frame (3 ∷ [])
    ∷ turn_cut
    ∷ turn_finished (some (codes "a1")) (some answered)
    ∷ sent true
    ∷ replaced
    ∷ []

utterances_rise_example : Rises 0 (heard events (new_connection none))
utterances_rise_example = utterances_rise none events

-- The follow-up that was heard on the old connection is not said again on the new one.
-- The same, and the follow-up fails to reach the client.
abbrev unheard : List Event
unheard =
    question_started started
    ∷ sent true
    ∷ audio_frame (1 ∷ 2 ∷ [])
    ∷ turn_cut
    ∷ turn_finished (some (codes "a1")) (some answered)
    ∷ sent false
    ∷ replaced
    ∷ []

handle_resume_example :
    handle (resumed again) (run_events unheard (new_connection none))
    ≡ run_events unheard (new_connection none)
unfolding resume_prompt handed handle run_events
handle_resume_example = (handle_resume_lem unheard again (codes "And?") refl (λ e. cc)).0 refl

abbrev answer : List Event
answer = question_started started ∷ sent true ∷ audio_frame (1 ∷ 2 ∷ []) ∷ audio_frame (3 ∷ []) ∷ []

turn_audio-Archived_example :
    let before = run_events answer (new_connection none) in
    Archived (codes "a1") 1 (1 ∷ 2 ∷ 3 ∷ []) before.archives before.turns_without_audio (
      run_events
        (answer ++ turn_cut ∷ sent true ∷ turn_finished (some (codes "a1")) (some answered) ∷ [])
        (new_connection none))
turn_audio-Archived_example = turn_audio-Archived none answer (true ∷ []) (codes "a1") answered

-- Two resumes before the first prompt is sent: it is said twice.
abbrev twice : List Event
twice = resumed again ∷ resumed again ∷ sent true ∷ sent true ∷ []

said_twice :
    map (λ u. u.text) (heard twice (new_connection none)) ≡ codes "And?" ∷ codes "And?" ∷ []
unfolding heard handle
said_twice = refl
