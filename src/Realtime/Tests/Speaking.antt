-- ===== src/Realtime/Tests/Speaking.antt =====
-- Transcripts, limits and sessions.
use voxenta_agentic_ai.Prelude.{
  suc, ◌*◌, ◌<◌, ◌≡◌, refl, pos, false, none, some, List, [], ◌∷◌, ◌++◌, codes, arith, strip, split,
}
use voxenta_agentic_ai.Realtime.Transcript.{
  Fraction, VoiceEvent, vad_speech_start, vad_speech_end, partial_transcript, final_transcript,
  on_events, reset, initial, consume_turn, on_event, join_text, final_text, weight_of,
}
use voxenta_agentic_ai.Realtime.Transcript.Joined.{utterances}
use voxenta_agentic_ai.Prelude.{joined}
use voxenta_agentic_ai.Realtime.Transcript.Consume.{consume_turn-text, waited}
use voxenta_agentic_ai.Realtime.TurnLimit.{
  TurnLimitPolicy, apply_turn_limit, is_clarification_reason,
}
use voxenta_agentic_ai.Realtime.Session.{
  QuestionSession, new_session, complete_turn, build_current_turn,
}
use voxenta_agentic_ai.Realtime.Session.Order.{
  Session, started, stepped, completed, IsNumbered, Session-IsNumbered,
}
use voxenta_agentic_ai.Realtime.Processor.{decide_and_complete, raw_decision}
use voxenta_agentic_ai.Realtime.Processor.Ends.{
  assessment_turns, GoesOn, begin, round, question_ends,
}
use voxenta_agentic_ai.Realtime.Tests.Fixtures.{question, go_on, goes_on}

-- A sentence, and a second one that is only heard in part.
abbrev said : List VoiceEvent
said =
    vad_speech_start
    ∷ vad_speech_end
    ∷ final_transcript (some (codes " we like it ")) (some 900_000)
    ∷ vad_speech_start
    ∷ partial_transcript (some (codes "a lot"))
    ∷ vad_speech_end
    ∷ []

said_text : (consume_turn [] (on_events said initial)).0.text ≡ codes "we like it a lot"
unfolding consume_turn on_events strip on_event join_text final_text
said_text = refl

consume_turn-text_example :
    (consume_turn [] (on_events said (reset initial))).0.text
    ≡ joined (utterances (said ++ waited (on_events said (reset initial)) []) [])
consume_turn-text_example = consume_turn-text initial said []

abbrev certain : Fraction
certain = record { numerator = 2_700_000; denominator = 3 }

said_confidence : (consume_turn [] (on_events said (reset initial))).0.confidence ≡ some certain
unfolding consume_turn on_events reset strip split on_event final_text weight_of
said_confidence = refl

-- The third of three assessment turns.
abbrev policy : TurnLimitPolicy
policy = record {
  legacy_last_allowed = false;
  speech_budget_exceeded = false;
  assessment_turn_count = some (pos 2);
  max_assessment_turns = some (pos 3);
}

stops : (apply_turn_limit go_on policy 0).should_continue ≡ false
unfolding apply_turn_limit is_clarification_reason
stops = refl

abbrev s₀ : QuestionSession
s₀ =
    new_session (codes "a1") (codes "e1") none (some question) (some (codes "Why?")) (codes "en-US")
      none

abbrev s₁ : QuestionSession
s₁ = (complete_turn (build_current_turn (codes "we like it") 3 none s₀) go_on s₀).1

s₁-Session : Session s₁
s₁-Session =
    stepped
      (started (codes "a1") (codes "e1") none (some question) (some (codes "Why?")) (codes "en-US")
        none)
      (completed (codes "we like it") 3 none go_on)

Session-IsNumbered_example : IsNumbered s₁
Session-IsNumbered_example = Session-IsNumbered s₁-Session

-- One round under a limit of two turns.
abbrev two_turns : TurnLimitPolicy
two_turns = record {
  legacy_last_allowed = false;
  speech_budget_exceeded = false;
  assessment_turn_count = some (pos 0);
  max_assessment_turns = some (pos 2);
}

one_round :
    GoesOn 2 (decide_and_complete goes_on (codes "we like it") 3 none two_turns s₀).2 (suc 0)
unfolding decide_and_complete new_session assessment_turns apply_turn_limit raw_decision
    is_clarification_reason
one_round = round goes_on (codes "we like it") 3 none two_turns (begin s₀ refl) refl refl refl

question_ends_example : suc 0 < 3 * 2
question_ends_example = question_ends (omega arith) one_round
