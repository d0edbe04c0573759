-- ===== src/Realtime/Turn.antt =====
-- The dicts that travel through the realtime side: a turn, a decision, and what is kept of a turn in the
-- checkpoint. Durations are in milliseconds.
use voxenta_agentic_ai.Prelude.{ℕ, ℤ, Bool, Option, Text}
use voxenta_agentic_ai.Realtime.Transcript.{Fraction}

pub data TurnType : Type 0 where
  main followup : TurnType

-- The entries of `session.turns` and of the checkpoint's `turns`.
pub record Turn : Type 0 where
  pub answer_id : Text
  pub paper_item_id : Option Text
  pub turn_order : ℕ
  pub turn_type : TurnType
  pub prompt_text : Option Text
  pub audio_url : Option Text
  pub transcript : Text
  pub word_count : ℕ
  pub duration_seconds : Option ℕ
  pub answered_at : Option Text
  pub decision_reason : Option Text
  pub should_continue : Bool
  pub next_prompt_text : Option Text

-- The follow-up decision. A key that is missing is `none`.
pub record Decision : Type 0 where
  pub should_continue : Bool
  pub next_prompt_text : Option Text
  pub active_prompt_text : Option Text
  pub reason : Option Text

-- An entry of `realtime_transcripts`.
pub record TranscriptEntry : Type 0 where
  pub turn_order : ℕ
  pub text : Text
  pub is_last_allowed_turn : Bool
  pub speech_budget_exceeded : Bool
  pub assessment_turn_count : Option ℤ
  pub max_assessment_turns : Option ℤ
  pub duration_seconds : Option ℕ
  pub confidence : Option Fraction

-- An entry of `decision_reasons`.
pub record DecisionEntry : Type 0 where
  pub turn_order : ℕ
  pub reason : Text
  pub should_continue : Bool
  pub next_prompt_text : Option Text
