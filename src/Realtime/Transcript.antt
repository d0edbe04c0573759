-- ===== src/Realtime/Transcript.antt =====
-- src/realtime/turn/transcript_accumulator.py. Confidences are in millionths; the average that Python
-- computes as a float is kept as the exact fraction of the weighted sum and the weight. The events that
-- arrive while `consume_turn` waits are an argument.
pub mod Consume
pub mod Joined
pub mod Average
use voxenta_agentic_ai.Prelude.{
  ℕ, ◌+◌, ◌*◌, Bool, true, false, ◌||◌, Option, none, some, List, [], ◌∷◌, ◌++◌, length, max, Text,
  strip, split, space, is_empty, or_text, get_or, ltb, any, if◌then◌else◌,
}

pub record Fraction : Type 0 where
  pub numerator : ℕ
  pub denominator : ℕ

pub record TranscriptSnapshot : Type 0 where
  pub text : Text
  pub confidence : Option Fraction

pub record TranscriptAccumulator : Type 0 where
  pub finalized_text : Text
  pub live_partial : Text
  pub awaiting_final : Bool
  -- the flag of the `asyncio.Event`
  pub final_event : Bool
  pub confidence_weighted_sum : ℕ
  pub confidence_weight_total : ℕ

-- `__init__`
abbrev pub initial : TranscriptAccumulator
initial = record {
  finalized_text = [];
  live_partial = [];
  awaiting_final = false;
  final_event = false;
  confidence_weighted_sum = 0;
  confidence_weight_total = 0;
}

unfoldable pub on_speech_start : TranscriptAccumulator → TranscriptAccumulator
on_speech_start a = record a { live_partial = [] }

unfoldable pub on_partial_transcript : Option Text → TranscriptAccumulator → TranscriptAccumulator
on_partial_transcript none a = a
on_partial_transcript (some text) a = record a { live_partial = a.live_partial ++ text }

unfoldable pub on_speech_end : TranscriptAccumulator → TranscriptAccumulator
on_speech_end a = record a { awaiting_final = true; final_event = false }

-- `f"{a} {b}".strip()`
unfoldable pub join_text : Text → Text → Text
join_text a b = strip (a ++ space ++ b)

-- `max(len(finalized.split()), 1)`
unfoldable pub weight_of : Text → ℕ
weight_of finalized = max (length (split finalized)) 1

-- `if confidence is not None`
unfoldable pub weigh : Option ℕ → ℕ → TranscriptAccumulator → TranscriptAccumulator
weigh none weight a = a
weigh (some confidence) weight a = record a {
  confidence_weighted_sum = a.confidence_weighted_sum + confidence * weight;
  confidence_weight_total = a.confidence_weight_total + weight;
}

-- `(text or self._live_partial or "").strip()`
unfoldable pub final_text : Option Text → TranscriptAccumulator → Text
final_text text a = strip (or_text (get_or text []) a.live_partial)

unfoldable pub on_final_transcript :
    Option Text → Option ℕ → TranscriptAccumulator → TranscriptAccumulator
unfolding weigh
on_final_transcript text confidence a =
    let finalized = final_text text a in
    let taken =
      if is_empty finalized
      then a
      else weigh confidence (weight_of finalized)
          (record a { finalized_text = join_text a.finalized_text finalized }) in
    record taken { live_partial = []; awaiting_final = false; final_event = true }

unfoldable pub reset : TranscriptAccumulator → TranscriptAccumulator
reset a = record {
  finalized_text = [];
  live_partial = [];
  awaiting_final = false;
  final_event = true;
  confidence_weighted_sum = 0;
  confidence_weight_total = 0;
}

-- The events of the voice service that reach the accumulator.
pub data VoiceEvent : Type 0 where
  vad_speech_start vad_speech_end : VoiceEvent
  partial_transcript : Option Text → VoiceEvent
  final_transcript : Option Text → Option ℕ → VoiceEvent

unfoldable pub on_event : VoiceEvent → TranscriptAccumulator → TranscriptAccumulator
unfolding on_speech_start on_speech_end on_partial_transcript on_final_transcript
on_event vad_speech_start a = on_speech_start a
on_event vad_speech_end a = on_speech_end a
on_event (partial_transcript text) a = on_partial_transcript text a
on_event (final_transcript text confidence) a = on_final_transcript text confidence a

unfoldable pub on_events : List VoiceEvent → TranscriptAccumulator → TranscriptAccumulator
on_events [] a = a
on_events (e ∷ es) a = on_events es (on_event e a)

abbrev pub is_final : VoiceEvent → Bool
is_final (final_transcript text confidence) = true
is_final _ = false

-- `except asyncio.TimeoutError`: what was heard so far is taken as final.
unfoldable pub on_timeout : TranscriptAccumulator → TranscriptAccumulator
on_timeout a =
    let heard = strip a.live_partial in
    record a {
      finalized_text =
          if is_empty heard then a.finalized_text else join_text a.finalized_text heard;
      live_partial = [];
      awaiting_final = false;
    }

-- The wait: the final event among the arrivals ends it in time, or the timeout runs out. Nothing is
-- waited for if no final transcript is due or the event is set.
unfoldable pub await_final : List VoiceEvent → TranscriptAccumulator → TranscriptAccumulator
unfolding on_events on_timeout
await_final arrivals a =
    if a.awaiting_final
    then (if a.final_event
        then a
        else (let a' = on_events arrivals a in if any is_final arrivals then a' else on_timeout a'))
    else a

unfoldable pub snapshot : TranscriptAccumulator → TranscriptSnapshot
snapshot a = record {
  text = a.finalized_text;
  confidence =
      if ltb 0 a.confidence_weight_total
      then some (record {
        numerator = a.confidence_weighted_sum;
        denominator = a.confidence_weight_total;
      })
      else none;
}

unfoldable pub consume_turn :
    List VoiceEvent → TranscriptAccumulator → TranscriptSnapshot × TranscriptAccumulator
unfolding await_final snapshot reset
consume_turn arrivals a = let a' = await_final arrivals a in (snapshot a', reset a')
