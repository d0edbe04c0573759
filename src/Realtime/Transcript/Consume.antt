-- ===== src/Realtime/Transcript/Consume.antt =====
-- What `consume_turn` returns: the text of the turn's own events, whatever came before.
use voxenta_agentic_ai.Prelude.{
  joined, ◌≡◌, refl, sym, ap, ◌∙◌, true, false, none, some, List, [], ◌∷◌, ◌++◌, inl, inr, any,
  if◌then◌else◌, arith, Bool-cases,
}
use voxenta_agentic_ai.Realtime.Transcript.{
  TranscriptAccumulator, VoiceEvent, vad_speech_start, vad_speech_end, partial_transcript,
  final_transcript, is_final, on_event, on_events, on_timeout, await_final, snapshot, reset,
  consume_turn, final_text,
}
use voxenta_agentic_ai.Realtime.Transcript.Joined.{utterances, text_is_joined}

on_events-append :
    (es fs : List VoiceEvent) (a : TranscriptAccumulator)
    → on_events (es ++ fs) a ≡ on_events fs (on_events es a)
unfolding on_events
on_events-append [] fs a = refl
on_events-append (e ∷ es) fs a = on_events-append es fs (on_event e a)

-- While a final transcript is due, the event is not set.
abbrev IsWaiting : TranscriptAccumulator → Type 0
IsWaiting a = a.awaiting_final ≡ true → a.final_event ≡ false

on_event-IsWaiting :
    (e : VoiceEvent) (a : TranscriptAccumulator) → IsWaiting a → IsWaiting (on_event e a)
unfolding on_event
on_event-IsWaiting vad_speech_start a h = h
on_event-IsWaiting vad_speech_end a h = λ _. refl
on_event-IsWaiting (partial_transcript none) a h = h
on_event-IsWaiting (partial_transcript (some t)) a h = h
on_event-IsWaiting (final_transcript t c) a h = λ e. cc

on_events-IsWaiting :
    (es : List VoiceEvent) (a : TranscriptAccumulator) → IsWaiting a → IsWaiting (on_events es a)
unfolding on_events
on_events-IsWaiting [] a h = h
on_events-IsWaiting (e ∷ es) a h = on_events-IsWaiting es (on_event e a) (on_event-IsWaiting e a h)

-- Running into the timeout takes what was heard, as a final transcript with no text would.
text-on_timeout :
    (a : TranscriptAccumulator)
    → (on_timeout a).finalized_text ≡ (on_event (final_transcript none none) a).finalized_text
unfolding on_timeout on_event final_text
text-on_timeout a = ground arith

-- The events of the wait that count for the turn.
abbrev pub waited : TranscriptAccumulator → List VoiceEvent → List VoiceEvent
waited a arrivals =
    if a.awaiting_final
    then (if any is_final arrivals then arrivals else arrivals ++ final_transcript none none ∷ [])
    else []

text-await_final :
    (arrivals : List VoiceEvent) (a : TranscriptAccumulator)
    → IsWaiting a
    → (await_final arrivals a).finalized_text ≡ (on_events (waited a arrivals) a).finalized_text
unfolding await_final
text-await_final arrivals a h = elim (Bool-cases a.awaiting_final) [
  | inl due ↦ elim (Bool-cases (any is_final arrivals)) [
    | inl came ↦ ground (arith, due, came, h due)
    | inr late ↦ ground (
      arith,
      due,
      late,
      h due,
      on_events-append arrivals (final_transcript none none ∷ []) a,
      text-on_timeout (on_events arrivals a),
      single (on_events arrivals a),
    )
  ]
  | inr done ↦ ground (arith, done, none_left a)
]
  where
    single :
        (b : TranscriptAccumulator)
        → on_events (final_transcript none none ∷ []) b ≡ on_event (final_transcript none none) b
    single b = unfold on_events in refl

    none_left : (b : TranscriptAccumulator) → on_events [] b ≡ b
    none_left b = unfold on_events in refl

-- A turn that begins behind the end of another has as its text the utterances of its own events,
-- joined by single spaces. Where a final transcript is still due at its end, the events of the wait
-- count too, and if none of them is final, what was heard until the timeout is the last utterance.
pub consume_turn-text :
    (before : TranscriptAccumulator) (es arrivals : List VoiceEvent)
    → let a = on_events es (reset before) in
      (consume_turn arrivals a).0.text ≡ joined (utterances (es ++ waited a arrivals) [])
unfolding consume_turn snapshot
consume_turn-text before es arrivals =
    let a = on_events es (reset before) in
    text-await_final arrivals a (on_events-IsWaiting es (reset before) (λ e. unfold reset in cc))
    ∙ ap (λ b. b.finalized_text) (sym (on_events-append es (waited a arrivals) (reset before)))
    ∙ unfold reset in text_is_joined (es ++ waited a arrivals) (reset before) refl
