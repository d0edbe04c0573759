-- ===== src/Evaluation.antt =====
-- src/node/evalGraph: the nodes that score an answer, and the state they pass on.
pub mod Merge
pub mod Rules
pub mod Scale
pub mod Start
pub mod Validity
mod Tests
use voxenta_agentic_ai.Prelude.{ℕ, ℤ, Bool, Option, Text}
use voxenta_agentic_ai.Realtime.Transcript.{Fraction}
use voxenta_agentic_ai.Realtime.Question.{QuestionType}
use voxenta_agentic_ai.Evaluation.Rules.{ValidityResult}

pub record Question : Type 0 where
  pub question_type : Option QuestionType
  pub duration_seconds : Option ℤ
  pub min_response_seconds : Option ℤ

-- What the nodes below read of the input. `is_scripted` is `mode == SpeakingMode.SCRIPTED`.
pub record SpeakingInput : Type 0 where
  pub audio_path : Option Text
  pub language : Text
  pub is_scripted : Bool
  pub realtime_transcript : Option Text
  pub realtime_transcript_confidence : Option Fraction
  pub reference_text : Option Text
  pub transcribed_text : Option Text
  pub asr_confidence : Option Fraction
  pub question : Option Question

pub data Status : Type 0 where
  processing : Status
  error : Text → Status

-- The state of the graph. From the metadata: the text that the start node found, whether `validity_scope`
-- is "turn_fragment", and `actual_response_seconds` in milliseconds.
pub record GraphState : Type 0 where
  pub speaking_input : Option SpeakingInput
  pub status : Status
  pub validity : Option ValidityResult
  pub transcription_text : Option Text
  pub is_turn_fragment : Bool
  pub actual_response : Option ℕ
