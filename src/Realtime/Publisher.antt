-- ===== src/Realtime/Publisher.antt =====
-- src/infra/message_broker/publishers/turn_publisher.py: each turn of an answer is published twice, once
-- from its live transcript and once with its recording. The calls of `publish_turn_if_new` for one answer
-- run as tasks; each await of one ends a step. A publish that fails sends nothing. The items of the usage
-- buffer are a parameter. The runs of the archive graph of src/node/followUpDecisionGraph/graphConfig.py for
-- the answer go on beside the calls: a run keeps the channels that it read at its start, and each checkpoint
-- that it saves replaces the one of the answer, whatever was written to that meanwhile.
pub mod Payloads
pub mod Marks
pub mod Careful
pub mod Weights
pub mod Once
use voxenta_agentic_ai.Prelude.{
  ℕ, ◌+◌, ◌≡◌, Bool, true, false, ◌&&◌, not, Option, none, some, List, [], ◌∷◌, ◌++◌, length, Text,
  ℕ_eq, mem, strip, split, is_empty, or_text, get_or, eqb, if◌then◌else◌,
}
use voxenta_agentic_ai.Realtime.Turn.{Turn, TurnType, TranscriptEntry, DecisionEntry}
use voxenta_agentic_ai.Realtime.Checkpoint.{
  Values, find_entry, find_turn, persist_realtime_transcript,
}
use voxenta_agentic_ai.Realtime.Archive.{
  ArchiveInput, Services, archive_turn, turn_type_of, write_input, resubmit,
}
use voxenta_agentic_ai.Realtime.Processor.{PublishRequest}

-- `AnswerTurnPayload`
pub record AnswerTurnPayload : Type 0 where
  pub answer_id : Text
  pub session_id : Text
  pub paper_item_id : Option Text
  pub turn_order : ℕ
  pub turn_type : TurnType
  pub prompt_text : Option Text
  pub audio_url : Option Text
  pub transcript : Text
  pub duration_seconds : Option ℕ
  pub word_count : ℕ
  pub answered_at : Option Text
  pub decision_reason : Text

-- `text.strip()` as a condition
abbrev pub is_blank : Text → Bool
is_blank text = is_empty (strip text)

-- The transcript and the word count that are published.
unfoldable pub transcript_of : Turn → Option Text → Text × ℕ
transcript_of t none = (t.transcript, t.word_count)
transcript_of t (some live) =
    if is_blank t.transcript && not (is_blank live)
    then (live, length (split live))
    else (t.transcript, t.word_count)

-- `_build_answer_turn_payload`
unfoldable pub build_answer_turn_payload : Turn → PublishRequest → Option Text → AnswerTurnPayload
unfolding transcript_of
build_answer_turn_payload t r live =
    let (transcript, words) = transcript_of t live in
    record {
      answer_id = or_text t.answer_id r.answer_id;
      session_id = r.exam_attempt_id;
      paper_item_id = t.paper_item_id;
      turn_order = t.turn_order;
      turn_type = t.turn_type;
      prompt_text = t.prompt_text;
      audio_url = t.audio_url;
      transcript = transcript;
      duration_seconds = t.duration_seconds;
      word_count = words;
      answered_at = t.answered_at;
      decision_reason = r.reason;
    }

-- `active_prompt_text or values.get("prompt_text")`
unfoldable pub prompt_or : Option Text → Option Text → Option Text
prompt_or none other = other
prompt_or (some p) other = if is_empty p then other else some p

-- The record of a turn from its live transcript alone.
unfoldable pub preliminary_turn : Values → PublishRequest → TranscriptEntry → Turn
unfolding turn_type_of prompt_or
preliminary_turn v r e = record {
  answer_id = r.answer_id;
  paper_item_id = v.paper_item_id;
  turn_order = r.turn_order;
  turn_type = turn_type_of r.turn_order;
  prompt_text = prompt_or r.active_prompt_text v.prompt_text;
  audio_url = none;
  transcript = e.text;
  word_count = length (split e.text);
  duration_seconds = e.duration_seconds;
  answered_at = none;
  decision_reason = none;
  should_continue = false;
  next_prompt_text = none;
}

-- `_build_preliminary_turn`
unfoldable pub build_preliminary_turn : Values → PublishRequest → Option Turn
unfolding find_entry preliminary_turn
build_preliminary_turn v r = elim (find_entry r.turn_order v.realtime_transcripts) [
  | none ↦ none
  | some e ↦ some (preliminary_turn v r e)
]

pub data Phase : Type 0 where
  preliminary full : Phase

-- An event on the topic of recorded turns.
pub record Sent : Type 0 where
  pub phase : Phase
  pub payload : AnswerTurnPayload
  pub reason : Text

-- Where a call of `publish_turn_if_new` stands: the await that comes next.
pub data Task : Type 0 where
  persisting_reason : PublishRequest → Task
  checking : PublishRequest → Task
  sending_preliminary : PublishRequest → AnswerTurnPayload → Task
  marking_preliminary : PublishRequest → Task
  waiting : PublishRequest → Task
  rechecking : PublishRequest → Turn → Task
  sending_full : PublishRequest → AnswerTurnPayload → Task
  reporting_usage : PublishRequest → Task
  marking_full : PublishRequest → Task
  finished : Task

-- How an await ends. `exhausted` is the end of the delays of `wait_for_turn`.
pub data Outcome : Type 0 where
  success failure exhausted : Outcome

-- A run of the archive graph under way, with the checkpoint that it read at its start.
pub record ArchiveRun : Type 0 where
  pub services : Services
  pub input : ArchiveInput
  pub values : Values

-- The checkpoint of the answer, the archive runs under way, what was sent, and the usage buffer of the
-- answer.
pub record World (U : Type 0) : Type 0 where
  pub values : Values
  pub runs : List ArchiveRun
  pub sent : List Sent
  pub usage : List U
  pub usage_sent : List (PublishRequest × List U)

unfoldable pub persist_reason : PublishRequest → Values → Values
persist_reason r v = record v {
  decision_reasons =
      v.decision_reasons
      ++ record {
        turn_order = r.turn_order;
        reason = r.reason;
        should_continue = r.should_continue;
        next_prompt_text = r.next_prompt_text;
      }
        ∷ [];
  active_prompt_text = r.active_prompt_text;
}

unfoldable pub mark_preliminary : ℕ → Values → Values
mark_preliminary order v = record v {
  preliminary_turn_orders = v.preliminary_turn_orders ++ order ∷ [];
}

unfoldable pub mark_full : ℕ → Values → Values
mark_full order v = record v { published_turn_orders = v.published_turn_orders ++ order ∷ [] }

-- The tests behind the first read of the checkpoint.
unfoldable pub check : PublishRequest → Values → Task
unfolding mem build_preliminary_turn
check r v =
    if mem v.published_turn_orders r.turn_order
    then finished
    else if mem v.preliminary_turn_orders r.turn_order
    then waiting r
    else elim (build_preliminary_turn v r) [
      | none ↦ waiting r
      | some t ↦ sending_preliminary r (build_answer_turn_payload t r none)
    ]

-- One look of `wait_for_turn`.
unfoldable pub look : PublishRequest → Values → Task
unfolding find_turn
look r v = elim (find_turn r.turn_order v.turns) [ none ↦ waiting r | some t ↦ rechecking r t ]

-- The text of the live entry, if there is one.
unfoldable pub live_text : ℕ → Values → Option Text
unfolding find_entry
live_text order v = elim (find_entry order v.realtime_transcripts) [
  | none ↦ none
  | some e ↦ some e.text
]

unfoldable pub recheck : PublishRequest → Turn → Values → Task
unfolding mem live_text
recheck r t v =
    if mem v.published_turn_orders r.turn_order
    then finished
    else sending_full r (build_answer_turn_payload t r (live_text r.turn_order v))

-- `ai_usage_tracker.pop_usage` and the event that follows it. A failure is logged.
unfoldable pub report_usage : {U : Type 0} → Outcome → PublishRequest → World U → World U
report_usage o r w =
    let popped = record w { usage = [] } in
    elim w.usage [
      | [] ↦ popped
      | u ∷ us ↦ elim o [
        | success ↦
            if is_empty r.exam_attempt_id
            then popped
            else record popped { usage_sent = w.usage_sent ++ (r, w.usage) ∷ [] }
        | failure ↦ popped
        | exhausted ↦ popped
      ]
    ]

-- One await of a call and the code up to the next.
unfoldable pub step : {U : Type 0} → Outcome → Task → World U → Task × World U
unfolding check look recheck persist_reason mark_preliminary mark_full
step success (persisting_reason r) w = (checking r, record w { values = persist_reason r w.values })
step success (checking r) w = (check r w.values, w)
step success (sending_preliminary r p) w = (
  marking_preliminary r,
  record w { sent = w.sent ++ record { phase = preliminary; payload = p; reason = r.reason } ∷ [] },
)
step success (marking_preliminary r) w =
    (waiting r, record w { values = mark_preliminary r.turn_order w.values })
step success (waiting r) w = (look r w.values, w)
step success (rechecking r t) w = (recheck r t w.values, w)
step success (sending_full r p) w = (
  reporting_usage r,
  record w { sent = w.sent ++ record { phase = full; payload = p; reason = r.reason } ∷ [] },
)
step success (marking_full r) w = (finished, record w { values = mark_full r.turn_order w.values })
step o (reporting_usage r) w = (marking_full r, report_usage o r w)
step o (persisting_reason r) w = (checking r, w)
step o _ w = (finished, w)

-- The awaits of one call, one after the other.
unfoldable pub run : {U : Type 0} → List Outcome → Task → World U → Task × World U
unfolding step
run [] task w = (task, w)
run (o ∷ os) task w = let (task', w') = step o task w in run os task' w'

-- All calls for the answer.
pub record System (U : Type 0) : Type 0 where
  pub world : World U
  pub tasks : List Task

abbrev pub with_values : {U : Type 0} → Values → World U → World U
with_values v w = record w { values = v }

-- The checkpoint behind the first node of an archive run.
unfoldable pub first_checkpoint : ArchiveRun → Values
unfolding resubmit write_input
first_checkpoint a = resubmit (write_input a.input a.values)

-- The last checkpoint of an archive run.
unfoldable pub last_checkpoint : ArchiveRun → Values
unfolding archive_turn
last_checkpoint a = (archive_turn a.services a.input a.values).1

-- What happens to an answer, in any order: a call is spawned, a call goes on, a run of the archive graph
-- begins, saves its first checkpoint or ends, a live transcript is written, a use is recorded, the process
-- restarts.
pub data Step {U : Type 0} : System U → System U → Type 0 where
  spawned :
      (w : World U) (ts : List Task) (r : PublishRequest)
      → Step
          (record { world = w; tasks = ts })
          (record { world = w; tasks = persisting_reason r ∷ ts })
  went_on :
      (w : World U) (ts us : List Task) (t : Task) (o : Outcome)
      → Step
          (record { world = w; tasks = ts ++ t ∷ us })
          (record { world = (step o t w).1; tasks = ts ++ (step o t w).0 ∷ us })
  archive_began :
      (w : World U) (ts : List Task) (s : Services) (i : ArchiveInput)
      → Step
          (record { world = w; tasks = ts })
          (record {
            world = record w {
              runs = record { services = s; input = i; values = w.values } ∷ w.runs;
            };
            tasks = ts;
          })
  archive_saved :
      (w : World U) (ts : List Task) (xs ys : List ArchiveRun) (a : ArchiveRun)
      → Step
          (record { world = record w { runs = xs ++ a ∷ ys }; tasks = ts })
          (record {
            world = record w { runs = xs ++ a ∷ ys; values = first_checkpoint a };
            tasks = ts;
          })
  archive_ended :
      (w : World U) (ts : List Task) (xs ys : List ArchiveRun) (a : ArchiveRun)
      → Step
          (record { world = record w { runs = xs ++ a ∷ ys }; tasks = ts })
          (record { world = record w { runs = xs ++ ys; values = last_checkpoint a }; tasks = ts })
  heard :
      (w : World U) (ts : List Task) (e : TranscriptEntry)
      → Step
          (record { world = w; tasks = ts })
          (record { world = with_values (persist_realtime_transcript e w.values) w; tasks = ts })
  used :
      (w : World U) (ts : List Task) (u : U)
      → Step
          (record { world = w; tasks = ts })
          (record { world = record w { usage = w.usage ++ u ∷ [] }; tasks = ts })
  restarted :
      (w : World U) (ts : List Task)
      → Step
          (record { world = w; tasks = ts })
          (record { world = record w { usage = []; runs = [] }; tasks = [] })

pub data Reach {U : Type 0} : System U → System U → Type 0 where
  here : (s : System U) → Reach s s
  further : (s t u : System U) → Reach s t → Step t u → Reach s u
