-- ===== src/Speech/Transcription.antt =====
-- `_transcribe_impl` of src/utils/speech_client.py: the handlers of the recognizer's events, and the
-- transcript that their segments make. The events are those heard before the wait ends.
pub mod Roundtrip
use voxenta_agentic_ai.Prelude.{
  ℕ, ◌+◌, ◌-◌, ◌*◌, max, Bool, true, false, ◌&&◌, Option, none, some, List, [], ◌∷◌, ◌++◌, map,
  length, Text, codes, eqb, leb, if◌then◌else◌, is_empty, or_text, lower, starts_with, split,
  get_or, joined,
}
use voxenta_agentic_ai.Realtime.Transcript.{Fraction}

-- Confidences are in millionths.
pub record TranscribedSegment : Type 0 where
  pub text : Text
  pub language : Text
  pub confidence : Option ℕ

-- The reason of a result, with what `describe_no_match` says of it
pub data ResultReason : Type 0 where
  no_match : Text → ResultReason
  recognized_speech : ResultReason
  other_reason : ResultReason

-- A result has the language that the service detected (empty if it did not) and the confidence that
-- `_segment_confidence` reads from it.
pub data Event : Type 0 where
  recognized : (reason : ResultReason) (text detected : Text) (confidence : Option ℕ) → Event
  canceled : (is_error : Bool) (details : Text) → Event
  session_stopped : Event

pub record Hearing : Type 0 where
  pub segments : List TranscribedSegment
  pub no_match_reasons : List Text
  pub canceled_error : Option Text
  pub is_done : Bool

unfoldable pub on_recognized :
    (language : Text) → ResultReason → Text → Text → Option ℕ → Hearing → Hearing
on_recognized language (no_match reason) text detected confidence h = record h {
  no_match_reasons = h.no_match_reasons ++ reason ∷ [];
}
on_recognized language other_reason text detected confidence h = h
on_recognized language recognized_speech text detected confidence h =
    let segment : TranscribedSegment = record {
      text = text;
      language = or_text detected language;
      confidence = confidence;
    } in
    if is_empty text then h else record h { segments = h.segments ++ segment ∷ [] }

unfoldable pub handle_event : (language : Text) → Event → Hearing → Hearing
unfolding on_recognized
handle_event language (recognized reason text detected confidence) h =
    on_recognized language reason text detected confidence h
handle_event language (canceled is_error details) h = record h {
  canceled_error = if is_error then some details else h.canceled_error;
  is_done = true;
}
handle_event language session_stopped h = record h { is_done = true }

unfoldable pub handle_events : (language : Text) → List Event → Hearing → Hearing
unfolding handle_event
handle_events language [] h = h
handle_events language (e ∷ es) h = handle_events language es (handle_event language e h)

-- `s.split("-")[0]`
unfoldable pub before_dash : Text → Text
before_dash [] = []
before_dash (c ∷ s) = let rest = before_dash s in if eqb c 45 then [] else c ∷ rest

-- `upper()` of a language code
unfoldable pub upper_code : ℕ → ℕ
upper_code c = if leb 97 c && leb c 122 then c - 32 else c

unfoldable pub lang_code : Text → Text
unfolding before_dash upper_code
lang_code detected = or_text (map upper_code (before_dash detected)) (codes "XX")

unfoldable pub wrap_non_target_segment : Text → Text → Text
unfolding lang_code
wrap_non_target_segment text detected =
    codes "[" ++ lang_code detected ++ codes ": " ++ text ++ codes "]"

-- `seg.language.lower().startswith(target_prefix)`
unfoldable pub in_target_language : (language : Text) → TranscribedSegment → Bool
unfolding before_dash lower starts_with
in_target_language language s = starts_with (lower s.language) (lower (before_dash language))

unfoldable pub part_of : (language : Text) → TranscribedSegment → Text
unfolding in_target_language wrap_non_target_segment
part_of language s =
    if in_target_language language s then s.text else wrap_non_target_segment s.text s.language

unfoldable pub weight : TranscribedSegment → ℕ
unfolding split
weight s = max (length (split s.text)) 1

-- The sums of the weighted confidences and of the weights, over the segments with a confidence
unfoldable pub weigh_segments : List TranscribedSegment → ℕ × ℕ
unfolding weight
weigh_segments [] = (0, 0)
weigh_segments (s ∷ ss) =
    let (total, weights) = weigh_segments ss in
    elim s.confidence [
      | some c ↦ (c * weight s + total, weight s + weights)
      | none ↦ (total, weights)
    ]

unfoldable pub avg_confidence : List TranscribedSegment → Option Fraction
unfolding weigh_segments
avg_confidence ss =
    let (total, weights) = weigh_segments ss in
    if eqb weights 0
    then none
    else some (record { numerator = total; denominator = weights * 1000000 })

pub data Transcription : Type 0 where
  failed : (details : Text) → Transcription
  transcribed : Option Text → Option Fraction → Transcription

-- What is returned of the segments.
unfoldable pub assemble : (language : Text) → List TranscribedSegment → Transcription
unfolding part_of joined avg_confidence
assemble language [] = transcribed none none
assemble language (s ∷ ss) =
    transcribed (some (joined (map (part_of language) (s ∷ ss)))) (avg_confidence (s ∷ ss))

-- An error without details is no error to `if canceled_error`.
unfoldable pub finish : (language : Text) → Hearing → Transcription
unfolding assemble
finish language h =
    if is_empty (get_or h.canceled_error [])
    then assemble language h.segments
    else failed (get_or h.canceled_error [])

abbrev pub nothing_heard : Hearing
nothing_heard = record {
  segments = [];
  no_match_reasons = [];
  canceled_error = none;
  is_done = false;
}

unfoldable pub transcribe_impl : (language : Text) → List Event → Transcription
unfolding handle_events finish
transcribe_impl language es = finish language (handle_events language es nothing_heard)
