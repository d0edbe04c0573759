-- ===== src/Realtime/Checkpoint.antt =====
-- The durable state of a question: the channels of src/node/followUpDecisionGraph/GraphState.py that the
-- archive graph checkpoints, under a thread id (an answer id, or an exam attempt id for
-- `current_answer_id`), with src/infra/database/archive_store.py. `update_state` of the checkpointer
-- appends to the channels that are declared with `add`, and overwrites the others. Times are in
-- milliseconds.
pub mod Resume
pub mod Poll
use voxenta_agentic_ai.Prelude.{
  ℕ, zero, suc, ◌+◌, ℤ, Bool, true, false, not, ◌&&◌, ◌||◌, Option, none, some, List, [], ◌∷◌, ◌++◌,
  map, reverse, Text, text_eq, ℕ_eq, Dict, get, put, get_or, is_some, find?, eqb, leb, ltb, max,
  is_empty, if◌then◌else◌,
}
use voxenta_agentic_ai.Realtime.Transcript.{Fraction}
use voxenta_agentic_ai.Realtime.Turn.{Turn, TranscriptEntry, DecisionEntry}
use voxenta_agentic_ai.Realtime.Question.{QuestionContext}

pub record Values : Type 0 where
  pub question : Option QuestionContext
  pub paper_item_id : Option Text
  pub language : Option Text
  pub prompt_text : Option Text
  pub active_prompt_text : Option Text
  pub remaining_graded_seconds : Option ℤ
  pub remaining_seconds_at_question_start : Option ℤ
  pub current_answer_id : Option Text
  pub speech_budget_elapsed_seconds : Option ℕ
  pub turns : List Turn
  pub published_turn_orders : List ℕ
  pub preliminary_turn_orders : List ℕ
  pub decision_reasons : List DecisionEntry
  pub realtime_transcripts : List TranscriptEntry

-- A thread that nothing was written to.
abbrev pub blank : Values
blank = record {
  question = none;
  paper_item_id = none;
  language = none;
  prompt_text = none;
  active_prompt_text = none;
  remaining_graded_seconds = none;
  remaining_seconds_at_question_start = none;
  current_answer_id = none;
  speech_budget_elapsed_seconds = none;
  turns = [];
  published_turn_orders = [];
  preliminary_turn_orders = [];
  decision_reasons = [];
  realtime_transcripts = [];
}

abbrev pub Store : Type 0
Store = Dict Text Values

-- `aget_state`, with `archive_config`
unfoldable pub read : Store → Text → Values
unfolding get
read store thread = get_or (get store thread) blank

-- `aupdate_state`
unfoldable pub update : Text → (Values → Values) → Store → Store
unfolding read put
update thread f store = put store thread (f (read store thread))

-- `next((t for t in turns if t.get("turn_order") == turn_order), None)`
unfoldable pub find_turn : ℕ → List Turn → Option Turn
find_turn order = find? (λ t. eqb t.turn_order order)

unfoldable pub find_entry : ℕ → List TranscriptEntry → Option TranscriptEntry
find_entry order = find? (λ e. eqb e.turn_order order)

-- `wait_for_turn_once`
unfoldable pub wait_for_turn_once : Text → ℕ → Store → Option Turn
unfolding read find_turn
wait_for_turn_once answer_id order store = find_turn order (read store answer_id).turns

unfoldable pub persist_question_snapshot :
    Option QuestionContext
    → Option Text
    → Text
    → Option Text
    → Option ℤ
    → Option ℤ
    → Values
    → Values
persist_question_snapshot question paper_item_id language prompt_text remaining start v = record v {
  question = question;
  paper_item_id = paper_item_id;
  language = some language;
  prompt_text = prompt_text;
  remaining_graded_seconds = remaining;
  remaining_seconds_at_question_start = start;
}

unfoldable pub set_current_answer_id : Text → Values → Values
set_current_answer_id answer_id v = record v { current_answer_id = some answer_id }

unfoldable pub get_current_answer_id : Text → Store → Option Text
unfolding read
get_current_answer_id attempt store = (read store attempt).current_answer_id

unfoldable pub persist_speech_budget_elapsed : ℕ → Values → Values
persist_speech_budget_elapsed elapsed v = record v { speech_budget_elapsed_seconds = some elapsed }

unfoldable pub persist_realtime_transcript : TranscriptEntry → Values → Values
persist_realtime_transcript e v = record v {
  realtime_transcripts = v.realtime_transcripts ++ e ∷ [];
}

-- The text and the confidence of a turn's live transcript.
unfoldable pub get_realtime_transcript : Text → ℕ → Store → Option Text × Option Fraction
unfolding read find_entry
get_realtime_transcript answer_id order store =
    elim (find_entry order (read store answer_id).realtime_transcripts) [
      | none ↦ (none, none)
      | some e ↦ (some e.text, e.confidence)
    ]

-- The dict that `get_resume_state` returns. It has no key for `remaining_graded_seconds`.
pub record ResumeState : Type 0 where
  pub turns : List Turn
  pub active_prompt_text : Option Text
  pub question : Option QuestionContext
  pub paper_item_id : Option Text
  pub language : Option Text
  pub prompt_text : Option Text
  pub realtime_transcripts : List TranscriptEntry
  pub speech_budget_elapsed_seconds : Option ℕ
  pub remaining_seconds_at_question_start : Option ℤ

-- `decisions_by_turn_order.get(order)`: of several entries the dict keeps the last.
unfoldable pub last_decision : ℕ → List DecisionEntry → Option DecisionEntry
last_decision order [] = none
last_decision order (e ∷ es) = elim (last_decision order es) [
  | some later ↦ some later
  | none ↦ if eqb e.turn_order order then some e else none
]

-- The decision of a turn is merged into it.
unfoldable pub with_decision : List DecisionEntry → Turn → Turn
unfolding last_decision
with_decision es t = elim (last_decision t.turn_order es) [
  | none ↦ t
  | some e ↦ record t {
    decision_reason = some e.reason;
    should_continue = e.should_continue;
    next_prompt_text = e.next_prompt_text;
  }
]

-- `turns.sort(key=...)`, which is stable.
unfoldable pub insert_turn : Turn → List Turn → List Turn
insert_turn t [] = t ∷ []
insert_turn t (u ∷ us) =
    let rest = insert_turn t us in if leb t.turn_order u.turn_order then t ∷ u ∷ us else u ∷ rest

unfoldable pub sort_turns : List Turn → List Turn
unfolding insert_turn
sort_turns [] = []
sort_turns (t ∷ ts) = insert_turn t (sort_turns ts)

abbrev pub is_nil : List Turn → Bool
is_nil [] = true
is_nil (t ∷ ts) = false

unfoldable pub get_resume_state : Values → Option ResumeState
get_resume_state v =
    if not (is_some v.question) && is_nil v.turns
    then none
    else some (record {
      turns = sort_turns (map (with_decision v.decision_reasons) v.turns);
      active_prompt_text = v.active_prompt_text;
      question = v.question;
      paper_item_id = v.paper_item_id;
      language = v.language;
      prompt_text = v.prompt_text;
      realtime_transcripts = v.realtime_transcripts;
      speech_budget_elapsed_seconds = v.speech_budget_elapsed_seconds;
      remaining_seconds_at_question_start = v.remaining_seconds_at_question_start;
    })
