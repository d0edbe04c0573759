-- ===== src/Evaluation/Validity/Silence.antt =====
-- An answer without a recording is no error, and one without a transcript either ends at the gate.
use voxenta_agentic_ai.Prelude.{◌≡◌, ◌∙◌, refl, true, none, some, [], get_or, strip, word_count}
use voxenta_agentic_ai.Evaluation.{SpeakingInput, GraphState, processing}
use voxenta_agentic_ai.Speech.WordErrors.{Unicode}
use voxenta_agentic_ai.Speech.Transcription.{transcribed}
use voxenta_agentic_ai.Evaluation.Start.{
  Audio, usable_audio, find_transcript, with_transcript, start_input, start_node,
}
use voxenta_agentic_ai.Evaluation.Validity.{
  Services, Answer, answer_of, validity_of, check_input, validity_node, end, is_rejected,
  route_after_validity,
}
use voxenta_agentic_ai.Evaluation.Validity.Verdict.{validity_of-rejected}

-- What the first node makes of an input that is silent.
silent : Unicode → GraphState → SpeakingInput → GraphState
silent unicode state input =
    with_transcript unicode (record input { audio_path = none }) state (transcribed (some []) none)

start_node-silent :
    (unicode : Unicode) (audio : Audio) (state : GraphState) (input : SpeakingInput)
    → state.speaking_input ≡ some input
    → usable_audio audio input.audio_path ≡ none
    → get_or input.realtime_transcript [] ≡ []
    → start_node unicode audio state ≡ silent unicode state input
unfolding start_node start_input find_transcript silent
start_node-silent unicode audio state input e no_audio no_text = rw (e, no_audio, no_text) refl

no_word-rejected :
    (services : Services) (a : Answer)
    → a.word_count ≡ 0
    → is_rejected (some (validity_of services a)) ≡ true
no_word-rejected services a h = validity_of-rejected services a ∙ rw h refl

rejected-route :
    (state : GraphState) → is_rejected state.validity ≡ true → route_after_validity state ≡ end
unfolding route_after_validity
rejected-route state h = rw h refl

silent-rejected :
    (unicode : Unicode) (services : Services) (state : GraphState) (input : SpeakingInput)
    → let checked = validity_node services (silent unicode state input) in
      (checked.status ≡ processing) × (route_after_validity checked ≡ end)
unfolding silent with_transcript validity_node check_input
silent-rejected unicode services state input =
    let started = silent unicode state input in
    let heard = get_or started.speaking_input input in
    (
      refl,
      rejected-route (validity_node services started) (
          no_word-rejected services (answer_of services started heard)
            (unfold answer_of strip word_count in refl)),
    )

-- An input without a file to play, and without a transcript from the exam itself: the first node passes it on,
-- and the gate ends the graph, without an error in either.
pub silent_turn_ends :
    (unicode : Unicode) (audio : Audio) (services : Services) (state : GraphState)
    (input : SpeakingInput)
    → state.speaking_input ≡ some input
    → usable_audio audio input.audio_path ≡ none
    → get_or input.realtime_transcript [] ≡ []
    → let started = start_node unicode audio state in
      let checked = validity_node services started in
      (started.status ≡ processing)
      × (checked.status ≡ processing)
      × (route_after_validity checked ≡ end)
silent_turn_ends unicode audio services state input e no_audio no_text =
    rw (start_node-silent unicode audio state input e no_audio no_text) (
      unfold silent with_transcript in refl,
      (silent-rejected unicode services state input).0,
      (silent-rejected unicode services state input).1,
    )
