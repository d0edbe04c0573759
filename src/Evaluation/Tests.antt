-- ===== src/Evaluation/Tests.antt =====
-- The theorems on the evaluation at concrete inputs.
use voxenta_agentic_ai.Prelude.{
  ℕ, zero, mem, ◌/◌, ◌≡◌, ◌≤◌, refl, true, false, not, ◌&&◌, ◌||◌, none, some, [], ◌∷◌, codes, eqb,
  leb, arith, is_empty, is_some,
}
use voxenta_agentic_ai.Speech.Transcription.{transcribed}
use voxenta_agentic_ai.Speech.WordErrors.{Unicode}
use voxenta_agentic_ai.Evaluation.{SpeakingInput, GraphState, processing}
use voxenta_agentic_ai.Evaluation.Start.{Audio, usable_audio, start_node}
use voxenta_agentic_ai.Evaluation.Validity.{
  LlmRule, Services, Answer, in_wrong_language, validity_of, validity_node, is_rejected,
  route_after_validity, end,
}
use voxenta_agentic_ai.Evaluation.Validity.Verdict.{model_rejects, validity_of-rejected}
use voxenta_agentic_ai.Evaluation.Validity.Silence.{silent_turn_ends}
use voxenta_agentic_ai.Evaluation.Merge.{MergeState, audio_absent, merge_scores_node}
use voxenta_agentic_ai.Evaluation.Merge.Outcome.{is_completed, merge_scores_node-completed}
use voxenta_agentic_ai.Evaluation.Scale.{Rounding, scaled, scale_hundred_mark_score}
use voxenta_agentic_ai.Evaluation.Scale.Range.{IsRounding, scale_hundred_mark_score_lem}

abbrev unicode : Unicode
unicode = record { lower = λ t. t; nfd = λ t. t; combining = λ c. false; word = λ c. leb 97 c }

abbrev audio : Audio
audio = record {
  exists = λ path. false;
  transcribe_with_confidence = λ path language. transcribed none none;
}

-- The model finds the answer off topic.
abbrev off_topic : LlmRule
off_topic = record {
  triggered = true;
  rule_id = some (codes "task.off_topic_full");
  severity = none;
  action = none;
  blocking = none;
  target_criteria = [];
}

abbrev services : Services
services = record {
  word = λ c. leb 97 c;
  round_2 = λ f. f;
  ask = λ text. some (some off_topic ∷ none ∷ []);
}

abbrev answer : Answer
answer = record {
  text = codes "i like tea";
  word_count = 3;
  question_type = none;
  duration_seconds = none;
  min_response_seconds = none;
  is_scripted = false;
  is_turn_fragment = false;
  actual_response = none;
}

validity_of-rejected_example : is_rejected (some (validity_of services answer)) ≡ (
    (eqb answer.word_count 0 || in_wrong_language services answer)
    || (not answer.is_turn_fragment && model_rejects services answer))
validity_of-rejected_example = validity_of-rejected services answer

-- This one is rejected, by the model.
is_off_topic : model_rejects services answer ≡ true
unfolding model_rejects mem
is_off_topic = refl

abbrev input : SpeakingInput
input = record {
  audio_path = some (codes "/tmp/a.wav");
  language = codes "en-US";
  is_scripted = false;
  realtime_transcript = none;
  realtime_transcript_confidence = none;
  reference_text = none;
  transcribed_text = none;
  asr_confidence = none;
  question = none;
}

abbrev state : GraphState
state = record {
  speaking_input = some input;
  status = processing;
  validity = none;
  transcription_text = none;
  is_turn_fragment = true;
  actual_response = some 4000;
}

no_audio : usable_audio audio input.audio_path ≡ none
unfolding usable_audio
no_audio = refl

silent_turn_ends_example :
    ((start_node unicode audio state).status ≡ processing)
    × ((validity_node services (start_node unicode audio state)).status ≡ processing)
    × (route_after_validity (validity_node services (start_node unicode audio state)) ≡ end)
silent_turn_ends_example = silent_turn_ends unicode audio services state input refl no_audio refl

abbrev merged : MergeState ℕ
merged = record {
  branch_errors = record {
    pronunciation_error = codes "speaking_input.audio_path is required";
    azure_score_scale_error = codes "speaking_input and pronunciation_result are required";
    answer_length_error = [];
    language_quality_error = [];
  };
  audio_path = none;
  pronunciation_result = none;
  coherence_criterion = some 7;
  lexical_criterion = some 6;
  grammar_criterion = none;
}

merge_scores_node-completed_example : is_completed (merge_scores_node merged) ≡ (
    (is_empty merged.branch_errors.answer_length_error
      && is_empty merged.branch_errors.language_quality_error)
    && (audio_absent merged.audio_path
        || (is_some merged.pronunciation_result
            && (is_empty merged.branch_errors.pronunciation_error
                && is_empty merged.branch_errors.azure_score_scale_error))))
merge_scores_node-completed_example = merge_scores_node-completed merged

-- Rounding down is one of the roundings.
abbrev down : Rounding
down n d = n / d

down-IsRounding : IsRounding down
down-IsRounding = record {
  below = λ n k h. omega (arith, h);
  above = λ n k h. omega (arith, h);
  monotone = λ m n h. omega (arith, h);
}

scale_hundred_mark_score_lem_example :
    (s : ℕ) × (t : ℕ) × (scale_hundred_mark_score down (some 0) 100 900 ≡ scaled s)
    × (scale_hundred_mark_score down (some 10000) 100 900 ≡ scaled t)
    × (100 ≤ s)
    × (s ≤ t)
    × (t ≤ 900)
    × (zero ≡ 0 → s ≡ 100)
    × (10000 ≤ 10000 → t ≡ 900)
scale_hundred_mark_score_lem_example =
    scale_hundred_mark_score_lem down 0 10000 100 900 down-IsRounding (omega arith) (omega arith)
