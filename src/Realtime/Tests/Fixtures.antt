-- ===== src/Realtime/Tests/Fixtures.antt =====
-- Data that the tests share.
use voxenta_agentic_ai.Prelude.{ltb, pos, true, false, none, some, [], ◌∷◌, codes}
use voxenta_agentic_ai.Realtime.Archive.{ArchiveInput, Services}
use voxenta_agentic_ai.Realtime.Turn.{Turn, main, Decision, TranscriptEntry}
use voxenta_agentic_ai.Realtime.Question.{QuestionContext}
use voxenta_agentic_ai.Realtime.Checkpoint.{Values, blank}
use voxenta_agentic_ai.Realtime.Processor.{PublishRequest, Graph}

abbrev pub question : QuestionContext
question = record {
  question_text = some (codes "Why?");
  question_type = none;
  duration_seconds = none;
  min_response_seconds = some (pos 60);
  max_response_seconds = some (pos 30);
}

abbrev pub go_on : Decision
go_on = record {
  should_continue = true;
  next_prompt_text = some (codes "And?");
  active_prompt_text = none;
  reason = some (codes "expand");
}

abbrev pub goes_on : Graph
goes_on _ = record { decision = some go_on; error = none }

abbrev pub entry : TranscriptEntry
entry = record {
  turn_order = 1;
  text = codes "we like it";
  is_last_allowed_turn = false;
  speech_budget_exceeded = false;
  assessment_turn_count = none;
  max_assessment_turns = none;
  duration_seconds = some 4000;
  confidence = none;
}

abbrev pub turn : Turn
turn = record {
  answer_id = codes "a1";
  paper_item_id = none;
  turn_order = 1;
  turn_type = main;
  prompt_text = some (codes "Why?");
  audio_url = some (codes "a1.wav");
  transcript = [];
  word_count = 0;
  duration_seconds = some 4000;
  answered_at = none;
  decision_reason = none;
  should_continue = false;
  next_prompt_text = none;
}

-- A question that was started, with the live transcript of its first turn.
abbrev pub asked : Values
asked = record blank { question = some question; language = some (codes "en-US") }

abbrev pub heard_live : Values
heard_live = record asked { realtime_transcripts = entry ∷ [] }

abbrev pub recorded : Values
recorded = record heard_live { turns = turn ∷ [] }

abbrev pub request : PublishRequest
request = record {
  answer_id = codes "a1";
  turn_order = 1;
  reason = codes "expand";
  exam_attempt_id = codes "e1";
  active_prompt_text = some (codes "And?");
  should_continue = true;
  next_prompt_text = some (codes "And?");
}

abbrev pub services : Services
services = record {
  transcribe = λ path language. [];
  wav_duration = λ path. some 4000;
  now = codes "2026-08-13T00:00:00Z";
  word_char = λ c. ltb 64 c;
}

abbrev pub input : ArchiveInput
input = record {
  answer_id = codes "a1";
  audio_ref = codes "a1.wav";
  paper_item_id = none;
  question = some question;
  language = codes "en-US";
  audio_path = codes "a1.wav";
  turn_order = 1;
  prompt_text = some (codes "Why?");
  duration_seconds = none;
}
