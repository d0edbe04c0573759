-- ===== src/Realtime/Transcript/Average.antt =====
-- The confidence of a turn is an average: it lies between the lowest and the highest confidence of the
-- final transcripts that it weighs.
use voxenta_agentic_ai.Prelude.{ℕ, ◌*◌, ◌≤◌, ◌<◌, ◌≡◌, none, some, List, [], ◌∷◌, arith, All}
use voxenta_agentic_ai.Realtime.Transcript.{
  Fraction, TranscriptAccumulator, VoiceEvent, vad_speech_start, vad_speech_end, partial_transcript,
  final_transcript, on_event, on_events, on_timeout, await_final, snapshot, reset, consume_turn,
  weigh, weight_of, final_text, join_text,
}

-- Every confidence that an event brings is between `lo` and `hi`.
abbrev pub Between : ℕ → ℕ → VoiceEvent → Type 0
Between lo hi (final_transcript t (some c)) = (lo ≤ c) × (c ≤ hi)
Between lo hi _ = Unit

abbrev IsAverage : ℕ → ℕ → TranscriptAccumulator → Type 0
IsAverage lo hi a =
    (lo * a.confidence_weight_total ≤ a.confidence_weighted_sum)
    × (a.confidence_weighted_sum ≤ hi * a.confidence_weight_total)

module _ (lo hi : ℕ) where
  weigh-IsAverage :
      (c w : ℕ) (a : TranscriptAccumulator)
      → (lo ≤ c) × (c ≤ hi)
      → IsAverage lo hi a
      → IsAverage lo hi (weigh (some c) w a)
  unfolding weigh
  weigh-IsAverage c w a h v = grind arith

  on_event-IsAverage :
      (e : VoiceEvent) (a : TranscriptAccumulator)
      → Between lo hi e
      → IsAverage lo hi a
      → IsAverage lo hi (on_event e a)
  unfolding on_event
  on_event-IsAverage vad_speech_start a h v = v
  on_event-IsAverage vad_speech_end a h v = v
  on_event-IsAverage (partial_transcript none) a h v = v
  on_event-IsAverage (partial_transcript (some t)) a h v = v
  on_event-IsAverage (final_transcript t none) a h v = ground arith
  on_event-IsAverage (final_transcript t (some c)) a h v =
      let u = final_text t a in
      ground (
        arith,
        weigh-IsAverage c (weight_of u) (record a { finalized_text = join_text a.finalized_text u })
            h v,
      )

  on_events-IsAverage :
      (es : List VoiceEvent) (a : TranscriptAccumulator)
      → All (Between lo hi) es
      → IsAverage lo hi a
      → IsAverage lo hi (on_events es a)
  unfolding on_events
  on_events-IsAverage [] a h v = v
  on_events-IsAverage (e ∷ es) a h v =
      on_events-IsAverage es (on_event e a) h.1 (on_event-IsAverage e a h.0 v)

  await_final-IsAverage :
      (arrivals : List VoiceEvent) (a : TranscriptAccumulator)
      → All (Between lo hi) arrivals
      → IsAverage lo hi a
      → IsAverage lo hi (await_final arrivals a)
  unfolding await_final on_timeout
  await_final-IsAverage arrivals a h v = ground (arith, on_events-IsAverage arrivals a h v)

  -- The confidence of a turn, where there is one, is a fraction with a positive denominator between the
  -- bounds that hold for the confidences of the turn's own events and of those that arrive while it
  -- waits. Nothing of an earlier turn counts.
  pub confidence_bounds :
      (before : TranscriptAccumulator) (es arrivals : List VoiceEvent) {f : Fraction}
      → All (Between lo hi) es
      → All (Between lo hi) arrivals
      → (consume_turn arrivals (on_events es (reset before))).0.confidence ≡ some f
      → (0 < f.denominator)
        × (lo * f.denominator ≤ f.numerator)
        × (f.numerator ≤ hi * f.denominator)
  unfolding consume_turn snapshot
  confidence_bounds before es arrivals he ha taken =
      let a = on_events es (reset before) in
      ground (
        arith,
        await_final-IsAverage arrivals a ha
            (on_events-IsAverage es (reset before) he (unfold reset in (omega arith, omega arith))),
      )
