-- ===== src/Evaluation/Start.antt =====
-- src/node/evalGraph/StartNode/start_node_config.py: where the transcript of an answer comes from.
use voxenta_agentic_ai.Prelude.{
  Bool, not, ◌||◌, Option, none, some, [], ◌∷◌, Text, codes, get_or, is_empty, if◌then◌else◌,
}
use voxenta_agentic_ai.Realtime.Transcript.{Fraction}
use voxenta_agentic_ai.Speech.Transcription.{Transcription, failed, transcribed}
use voxenta_agentic_ai.Speech.WordErrors.{Unicode, normalize_text}
use voxenta_agentic_ai.Evaluation.{SpeakingInput, GraphState, processing, error}

-- `os.path.exists`, and `transcribe_with_confidence` on a path and a language
pub record Audio : Type 0 where
  pub exists : Text → Bool
  pub transcribe_with_confidence : Text → Text → Transcription

-- The path, if it names a file.
unfoldable pub usable_audio : Audio → Option Text → Option Text
usable_audio audio none = none
usable_audio audio (some path) =
    if is_empty path || not (audio.exists path) then none else some path

-- The transcript and its confidence, for a path that is usable if it is there
unfoldable pub find_transcript :
    Audio
    → (realtime : Text) → Option Fraction
    → (path : Option Text) → (language : Text) → Transcription
find_transcript audio (c ∷ realtime) confidence path language =
    transcribed (some (c ∷ realtime)) confidence
find_transcript audio [] confidence none language = transcribed (some []) none
find_transcript audio [] confidence (some path) language =
    audio.transcribe_with_confidence path language

-- The state once the transcript is there
unfoldable pub with_transcript : Unicode → SpeakingInput → GraphState → Transcription → GraphState
unfolding normalize_text
with_transcript unicode input state (failed details) = record state {
  speaking_input = some input;
  status = error details;
}
with_transcript unicode input state (transcribed text confidence) =
    let normalized =
      if input.is_scripted
      then normalize_text unicode input.reference_text
      else input.reference_text in
    record state {
      speaking_input = some (record input {
        reference_text = normalized;
        transcribed_text = some (get_or text []);
        asr_confidence = confidence;
      });
      status = processing;
      transcription_text = some (get_or text []);
    }

unfoldable pub start_input : Unicode → Audio → GraphState → Option SpeakingInput → GraphState
unfolding usable_audio find_transcript with_transcript
start_input unicode audio state none = record state {
  status = error (codes "speaking_input is required for start_node");
}
start_input unicode audio state (some input) =
    let path = usable_audio audio input.audio_path in
    with_transcript unicode (record input { audio_path = path }) state
      (find_transcript audio (get_or input.realtime_transcript [])
        input.realtime_transcript_confidence path input.language)

unfoldable pub start_node : Unicode → Audio → GraphState → GraphState
unfolding start_input
start_node unicode audio state = start_input unicode audio state state.speaking_input
