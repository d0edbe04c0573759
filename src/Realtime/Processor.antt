-- ===== src/Realtime/Processor.antt =====
-- `TurnProcessor` of src/realtime/turn/processor.py: the live path and the recovery after a reconnect.
-- The follow-up graph is a parameter. The publish task that the code spawns is returned as a request.
-- The write of the live transcript is taken to succeed; the code logs a failure and goes on.
pub mod Ends
pub mod Recovery
use voxenta_agentic_ai.Prelude.{
  ℕ, ℤ, Bool, true, false, Option, none, some, List, [], ◌∷◌, ◌++◌, length, Text, text_eq, codes,
  split, get_or, is_empty, if◌then◌else◌,
}
use voxenta_agentic_ai.Realtime.Transcript.{VoiceEvent, Fraction, consume_turn, reset}
use voxenta_agentic_ai.Realtime.Turn.{Turn, Decision, TranscriptEntry}
use voxenta_agentic_ai.Realtime.TurnLimit.{
  TurnLimitPolicy, apply_turn_limit, trailing_clarifications,
}
use voxenta_agentic_ai.Realtime.Checkpoint.{
  Values, Store, ResumeState, read, update, persist_realtime_transcript, get_resume_state,
  find_entry,
}
use voxenta_agentic_ai.Realtime.Session.{
  QuestionSession, DecisionState, build_current_turn, build_decision_state, complete_turn,
}

-- What `session.graph.invoke` returns: the decision, `none` if it is missing or empty, and the error.
pub record GraphResult : Type 0 where
  pub decision : Option Decision
  pub error : Option Text

abbrev pub Graph : Type 0
Graph = DecisionState → GraphResult

-- The arguments of `publish_turn_if_new`.
pub record PublishRequest : Type 0 where
  pub answer_id : Text
  pub turn_order : ℕ
  pub reason : Text
  pub exam_attempt_id : Text
  pub active_prompt_text : Option Text
  pub should_continue : Bool
  pub next_prompt_text : Option Text

pub record TurnProcessingResult : Type 0 where
  pub decision : Decision
  pub completed_turn_order : ℕ

-- The message at the end of a turn. The numbers are as `_optional_float` and `_optional_int` read them.
pub record TurnEnd : Type 0 where
  pub text : Option Text
  pub duration_seconds : Option ℕ
  pub word_count : Option ℕ
  pub is_last_allowed_turn : Bool
  pub speech_budget_exceeded : Bool
  pub assessment_turn_count : Option ℤ
  pub max_assessment_turns : Option ℤ

abbrev pub from_message : TurnEnd → TurnLimitPolicy
from_message m = record {
  legacy_last_allowed = m.is_last_allowed_turn;
  speech_budget_exceeded = m.speech_budget_exceeded;
  assessment_turn_count = m.assessment_turn_count;
  max_assessment_turns = m.max_assessment_turns;
}

abbrev pub from_entry : TranscriptEntry → TurnLimitPolicy
from_entry e = record {
  legacy_last_allowed = e.is_last_allowed_turn;
  speech_budget_exceeded = e.speech_budget_exceeded;
  assessment_turn_count = e.assessment_turn_count;
  max_assessment_turns = e.max_assessment_turns;
}

-- `result.get("decision") or {...}`
unfoldable pub raw_decision : GraphResult → Decision
raw_decision g = elim g.decision [
  | some d ↦ d
  | none ↦ record {
    should_continue = false;
    next_prompt_text = none;
    active_prompt_text = none;
    reason = some (elim g.error [
      | none ↦ codes "decision_failed"
      | some e ↦ if is_empty e then codes "decision_failed" else e
    ]);
  }
]

unfoldable pub decide_and_complete :
    Graph
    → Text
    → ℕ
    → Option ℕ
    → TurnLimitPolicy
    → QuestionSession
    → TurnProcessingResult × PublishRequest × QuestionSession
decide_and_complete graph transcript words duration policy s =
    let turn = build_current_turn transcript words duration s in
    let raw = raw_decision (graph (build_decision_state turn s)) in
    let decision = apply_turn_limit raw policy (trailing_clarifications s.turns) in
    let (order, s') = complete_turn turn decision s in
    (
      record { decision = decision; completed_turn_order = order },
      record {
        answer_id = s.answer_id;
        turn_order = order;
        reason = get_or decision.reason [];
        exam_attempt_id = s.exam_attempt_id;
        active_prompt_text = s'.current_prompt_text;
        should_continue = decision.should_continue;
        next_prompt_text = decision.next_prompt_text;
      },
      s',
    )

-- The transcript of the turn, its confidence, and the session with the accumulator reset.
unfoldable pub take_transcript :
    List VoiceEvent → TurnEnd → QuestionSession → Text × Option Fraction × QuestionSession
unfolding consume_turn reset
take_transcript arrivals m s = elim m.text [
  | some text ↦ (text, none, record s { transcript = reset s.transcript })
  | none ↦
      let (snap, a) = consume_turn arrivals s.transcript in
      (snap.text, snap.confidence, record s { transcript = a })
]

-- The marker that recovery relies on.
unfoldable pub entry_of : TurnEnd → ℕ → Text → Option Fraction → TranscriptEntry
entry_of m order text confidence = record {
  turn_order = order;
  text = text;
  is_last_allowed_turn = m.is_last_allowed_turn;
  speech_budget_exceeded = m.speech_budget_exceeded;
  assessment_turn_count = m.assessment_turn_count;
  max_assessment_turns = m.max_assessment_turns;
  duration_seconds = m.duration_seconds;
  confidence = confidence;
}

-- The first half of `process`: the transcript is taken and written to the checkpoint.
unfoldable pub record_transcript :
    List VoiceEvent → TurnEnd → QuestionSession → Store → Text × QuestionSession × Store
record_transcript arrivals m s store =
    let (text, confidence, s') = take_transcript arrivals m s in
    (
      text,
      s',
      update s.answer_id (persist_realtime_transcript (entry_of m s.turn_order text confidence))
          store,
    )

-- `process`
unfoldable pub process :
    Graph
    → List VoiceEvent
    → TurnEnd
    → QuestionSession
    → Store
    → (TurnProcessingResult × PublishRequest × QuestionSession) × Store
process graph arrivals m s store =
    let (text, s', store') = record_transcript arrivals m s store in
    (
      decide_and_complete graph text (get_or m.word_count (length (split text))) m.duration_seconds
          (from_message m) s',
      store',
    )

-- What `recover_pending` comes to: a pending turn is decided now, the decision of the last turn is
-- reported again, or there is nothing.
pub data Recovered : Type 0 where
  decided : TurnProcessingResult → PublishRequest → QuestionSession → Recovered
  reported : TurnProcessingResult → Recovered
  nothing : Recovered

unfoldable pub last_turn : List Turn → Option Turn
last_turn [] = none
last_turn (t ∷ []) = some t
last_turn (t ∷ u ∷ ts) = last_turn (u ∷ ts)

unfoldable pub report_last : List Turn → Recovered
unfolding last_turn
report_last ts = elim (last_turn ts) [
  | none ↦ nothing
  | some t ↦ reported (record {
    decision = record {
      should_continue = t.should_continue;
      next_prompt_text = t.next_prompt_text;
      active_prompt_text = none;
      reason = some (get_or t.decision_reason []);
    };
    completed_turn_order = t.turn_order;
  })
]

unfoldable pub pending_entry : ℕ → Option ResumeState → Option TranscriptEntry
unfolding find_entry
pending_entry order none = none
pending_entry order (some r) = find_entry order r.realtime_transcripts

unfoldable pub recover_pending : Graph → QuestionSession → Store → Recovered
recover_pending graph s store =
    elim (pending_entry s.turn_order (get_resume_state (read store s.answer_id))) [
      | none ↦ report_last s.turns
      | some e ↦
          let (result, request, s') =
            decide_and_complete graph e.text (length (split e.text)) e.duration_seconds
              (from_entry e) s in
          decided result request s'
    ]
