-- ===== src/Realtime/Archive.antt =====
-- The archive graph of src/node/followUpDecisionGraph/graphConfig.py, as src/controller/archive_controller.py
-- invokes it: transcribe a turn, append it to the checkpoint. The speech service, the length of a WAV
-- file and the time of day are parameters.
pub mod Turns
pub mod Channels
use voxenta_agentic_ai.Prelude.{
  ℕ, Bool, true, false, Option, none, some, List, [], ◌∷◌, ◌++◌, any, Text, word_count, strip,
  is_empty, eqb, is_some, if◌then◌else◌, get_or,
}
use voxenta_agentic_ai.Realtime.Turn.{Turn, TurnType, main, followup, TranscriptEntry}
use voxenta_agentic_ai.Realtime.Question.{QuestionContext}
use voxenta_agentic_ai.Realtime.Checkpoint.{Values, find_entry}

-- The input of `graph.invoke`.
pub record ArchiveInput : Type 0 where
  pub answer_id : Text
  pub audio_ref : Text
  pub paper_item_id : Option Text
  pub question : Option QuestionContext
  pub language : Text
  pub audio_path : Text
  pub turn_order : ℕ
  pub prompt_text : Option Text
  pub duration_seconds : Option ℕ

pub record Services : Type 0 where
  -- `transcribe(audio_path, language)`, with the empty text for `None`
  pub transcribe : Text → Text → Text
  pub wav_duration : Text → Option ℕ
  pub now : Text
  -- what `\w` matches
  pub word_char : ℕ → Bool

-- What `invoke` does with its input: the channels of the input are overwritten.
unfoldable pub write_input : ArchiveInput → Values → Values
write_input i v = record v {
  paper_item_id = i.paper_item_id;
  question = i.question;
  language = some i.language;
  prompt_text = i.prompt_text;
}

-- A node that returns `{**_state_without_turns(state), ...}` submits every channel but `turns` again, and
-- the channels that are declared with `add` append what is submitted.
unfoldable pub resubmit : Values → Values
resubmit v = record v {
  published_turn_orders = v.published_turn_orders ++ v.published_turn_orders;
  preliminary_turn_orders = v.preliminary_turn_orders ++ v.preliminary_turn_orders;
  decision_reasons = v.decision_reasons ++ v.decision_reasons;
  realtime_transcripts = v.realtime_transcripts ++ v.realtime_transcripts;
}

-- `"MAIN" if turn_order == 1 else "FOLLOWUP"`
unfoldable pub turn_type_of : ℕ → TurnType
turn_type_of order = if eqb order 1 then main else followup

-- A live transcript that is not blank is taken; else the audio is transcribed.
unfoldable pub choose_transcript : Services → ArchiveInput → Option TranscriptEntry → Text
choose_transcript s i entry = elim entry [
  | none ↦ s.transcribe i.audio_path i.language
  | some e ↦ if is_empty (strip e.text) then s.transcribe i.audio_path i.language else e.text
]

-- `state.get("duration_seconds") or _wav_duration_seconds(audio_path)`
unfoldable pub duration_of : Services → ArchiveInput → Option ℕ
duration_of s i = elim i.duration_seconds [
  | none ↦ s.wav_duration i.audio_path
  | some d ↦ if eqb d 0 then s.wav_duration i.audio_path else some d
]

-- `transcribe_turn_node`: the turn, or `none` for the error of a missing audio path.
unfoldable pub transcribe_turn : Services → ArchiveInput → Values → Option Turn
transcribe_turn s i v =
    if is_empty i.audio_path
    then none
    else some (
        let transcript = choose_transcript s i (find_entry i.turn_order v.realtime_transcripts) in
        record {
          answer_id = i.answer_id;
          paper_item_id = v.paper_item_id;
          turn_order = i.turn_order;
          turn_type = turn_type_of i.turn_order;
          prompt_text = v.prompt_text;
          audio_url = some i.audio_ref;
          transcript = transcript;
          word_count = word_count s.word_char transcript;
          duration_seconds = duration_of s i;
          answered_at = some s.now;
          decision_reason = none;
          should_continue = false;
          next_prompt_text = none;
        })

-- `append_turn_node`
unfoldable pub append_turn : Turn → Values → Values
append_turn t v =
    let r = resubmit v in
    if any (λ u. eqb u.turn_order t.turn_order) v.turns
    then r
    else record r { turns = r.turns ++ t ∷ [] }

-- The run of the graph: whether it archived the turn, and the checkpoint behind it. The error ends the
-- run at the first node.
unfoldable pub archive_turn : Services → ArchiveInput → Values → Bool × Values
unfolding write_input
archive_turn s i v =
    let v' = write_input i v in
    elim (transcribe_turn s i v') [
      | none ↦ (false, resubmit v')
      | some t ↦ (true, append_turn t (resubmit v'))
    ]
