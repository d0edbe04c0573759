-- ===== src/Realtime/Transcript/Joined.antt =====
-- The text of a turn is its utterances, stripped, the blank ones left out, with one space between.
use voxenta_agentic_ai.Prelude.{
  ℕ, ◌≡◌, ◌≢◌, refl, sym, ap, ◌∙◌, false, Option, none, some, List, [], ◌∷◌, ◌++◌, inl, inr, Text,
  strip, space, is_empty, or_text, get_or, if◌then◌else◌, arith, Bool-cases, IsStripped,
  strip-IsStripped, strip-id, IsStripped-join, append_assoc, joined,
}
use voxenta_agentic_ai.Realtime.Transcript.{
  TranscriptAccumulator, VoiceEvent, vad_speech_start, vad_speech_end, partial_transcript,
  final_transcript, on_event, on_events, join_text, final_text,
}

-- What one event leaves of the text that is being heard.
abbrev pub heard : VoiceEvent → Text → Text
heard vad_speech_start p = []
heard vad_speech_end p = p
heard (partial_transcript none) p = p
heard (partial_transcript (some t)) p = p ++ t
heard (final_transcript t c) p = []

-- The utterances of a list of events, from the text heard before it: each final transcript ends one,
-- with its own text if it has any, and else with what was heard.
unfoldable pub utterances : List VoiceEvent → Text → List Text
utterances [] p = []
utterances (final_transcript t c ∷ es) p =
    let u = strip (or_text (get_or t []) p) in
    let rest = utterances es [] in if is_empty u then rest else u ∷ rest
utterances (vad_speech_start ∷ es) p = utterances es []
utterances (vad_speech_end ∷ es) p = utterances es p
utterances (partial_transcript none ∷ es) p = utterances es p
utterances (partial_transcript (some t) ∷ es) p = utterances es (p ++ t)

-- A text before the utterances that follow it.
prefixed : Text → List Text → Text
unfolding joined
prefixed [] us = joined us
prefixed (c ∷ s) us = joined ((c ∷ s) ∷ us)

joined-merge : (a b : Text) (us : List Text) → joined ((a ++ space ++ b) ∷ us) ≡ joined (a ∷ b ∷ us)
unfolding joined
joined-merge a b [] = refl
joined-merge a b (v ∷ vs) = simp append_assoc

join_text-nil : (u : Text) → IsStripped u → join_text [] u ≡ u
unfolding join_text strip
join_text-nil u h = unfold join_text strip in strip-id u h

nonempty : (u : Text) → is_empty u ≡ false → u ≢ []
nonempty [] e = cc
nonempty (c ∷ u) e = λ p. cc

join_text-append :
    (s u : Text)
    → is_empty s ≡ false
    → is_empty u ≡ false
    → IsStripped s
    → IsStripped u
    → join_text s u ≡ s ++ space ++ u
unfolding join_text
join_text-append s u ns nu hs hu =
    strip-id (s ++ space ++ u) (IsStripped-join s u (nonempty s ns) (nonempty u nu) hs hu)

prefixed_solid : (s : Text) (us : List Text) → is_empty s ≡ false → prefixed s us ≡ joined (s ∷ us)
unfolding prefixed
prefixed_solid [] us e = cc
prefixed_solid (c ∷ s) us e = refl

is_empty-append : (s t : Text) → is_empty s ≡ false → is_empty (s ++ t) ≡ false
is_empty-append [] t e = cc
is_empty-append (c ∷ s) t e = refl

prefixed-join_text :
    (s u : Text) (us : List Text)
    → is_empty u ≡ false
    → IsStripped s
    → IsStripped u
    → prefixed (join_text s u) us ≡ prefixed s (u ∷ us)
unfolding prefixed
prefixed-join_text [] u us ne hs hu = rw (join_text-nil u hu) (prefixed_solid u us ne)
prefixed-join_text (c ∷ s) u us ne hs hu =
    rw (join_text-append (c ∷ s) u refl ne hs hu) (joined-merge (c ∷ s) u us)

-- The state while a turn is open.
abbrev Heard : List VoiceEvent → TranscriptAccumulator → TranscriptAccumulator → Type 0
Heard es a a' =
    IsStripped a'.finalized_text
    × (a'.finalized_text ≡ prefixed a.finalized_text (utterances es a.live_partial))

join_text-IsStripped : (s u : Text) → IsStripped (join_text s u)
unfolding join_text
join_text-IsStripped s u = strip-IsStripped (s ++ space ++ u)

text-on_final :
    (t : Option Text) (c : Option ℕ) (a : TranscriptAccumulator)
    → (on_event (final_transcript t c) a).finalized_text ≡ (
        if is_empty (final_text t a)
        then a.finalized_text
        else join_text a.finalized_text (final_text t a))
unfolding on_event
text-on_final t none a = ground arith
text-on_final t (some c) a = ground arith

text-after_final :
    (t : Option Text) (c : Option ℕ) (es : List VoiceEvent) (a : TranscriptAccumulator)
    → IsStripped a.finalized_text
    → IsStripped (on_event (final_transcript t c) a).finalized_text
      × (prefixed (on_event (final_transcript t c) a).finalized_text (utterances es [])
          ≡ prefixed a.finalized_text (utterances (final_transcript t c ∷ es) a.live_partial))
unfolding utterances final_text
text-after_final t c es a h =
    let u = final_text t a in
    elim (Bool-cases (is_empty u)) [
      | inl e ↦ rw (text-on_final t c a, e) (h, refl)
      | inr e ↦
          rw (text-on_final t c a, e)
            (
              join_text-IsStripped a.finalized_text u,
              prefixed-join_text a.finalized_text u (utterances es []) e h
                  (strip-IsStripped (or_text (get_or t []) a.live_partial)),
            )
    ]

prefixed-nil : (s : Text) → prefixed s [] ≡ s
unfolding prefixed joined
prefixed-nil [] = refl
prefixed-nil (c ∷ s) = refl

-- From a state whose text is stripped, the text after any events is that text and the utterances of
-- the events, stripped, the blank ones left out, joined by single spaces.
text-on_events :
    (es : List VoiceEvent) (a : TranscriptAccumulator)
    → IsStripped a.finalized_text
    → (on_events es a).finalized_text ≡ prefixed a.finalized_text (utterances es a.live_partial)
unfolding on_events utterances on_event
text-on_events [] a h = sym (prefixed-nil a.finalized_text)
text-on_events (vad_speech_start ∷ es) a h = text-on_events es (on_event vad_speech_start a) h
text-on_events (vad_speech_end ∷ es) a h = text-on_events es (on_event vad_speech_end a) h
text-on_events (partial_transcript none ∷ es) a h =
    text-on_events es (on_event (partial_transcript none) a) h
text-on_events (partial_transcript (some t) ∷ es) a h =
    text-on_events es (on_event (partial_transcript (some t)) a) h
text-on_events (final_transcript t c ∷ es) a h =
    let (stripped, same) = text-after_final t c es a h in
    text-on_events es (on_event (final_transcript t c) a) stripped ∙ same

-- The text of a fresh turn after any events is the join of the utterances that they end.
pub text_is_joined :
    (es : List VoiceEvent) (a : TranscriptAccumulator)
    → a.finalized_text ≡ []
    → (on_events es a).finalized_text ≡ joined (utterances es a.live_partial)
unfolding joined prefixed
text_is_joined es a e =
    text-on_events es a (rw e (tt, tt)) ∙ ap (λ s. prefixed s (utterances es a.live_partial)) e
