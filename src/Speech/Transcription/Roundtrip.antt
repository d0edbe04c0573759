-- ===== src/Speech/Transcription/Roundtrip.antt =====
-- A transcript keeps its segments: what was said, and what of it was in another language.
use voxenta_agentic_ai.Prelude.{
  ◌≡◌, ◌∙◌, refl, sym, ap, true, false, some, List, [], ◌∷◌, ◌++◌, map, append_assoc, append-nil,
  All, Text, if◌then◌else◌, or_text, joined, space, keep_if, not, Bool-cases, inl, inr,
}
use voxenta_agentic_ai.Speech.Tags.{
  replace_tags, find_tags, strip_non_target_segments, extract_non_target_segments,
  unwrap_language_tags,
}
use voxenta_agentic_ai.Speech.Tags.Marks.{
  IsPlain, is_tag_code, replace_tags-plain, find_tags-plain, replace_tags-mark, find_tags-mark,
  mark_body,
}
use voxenta_agentic_ai.Speech.Transcription.{
  TranscribedSegment, Event, recognized, canceled, session_stopped, no_match, recognized_speech,
  other_reason, Hearing, nothing_heard, handle_events, lang_code, wrap_non_target_segment,
  in_target_language, part_of, avg_confidence, finish, transcribe_impl, transcribed,
}

-- The text has no bracket, and a language that is not the target one gives a code of two capitals.
abbrev pub IsMarkable : Text → TranscribedSegment → Type 0
IsMarkable language s =
    All IsPlain s.text
    × (in_target_language language s ≡ false → is_tag_code (lang_code s.language) ≡ true)

wrapped :
    (s : TranscribedSegment) (tail : Text)
    → wrap_non_target_segment s.text s.language ++ tail
      ≡ 91 ∷ mark_body (lang_code s.language) s.text ++ tail
unfolding wrap_non_target_segment
wrapped s tail = refl

-- What the replacement makes of a segment.
abbrev pub spoken : Text → (Text → Text) → TranscribedSegment → Text
spoken language by s = if in_target_language language s then s.text else by s.text

replace_tags-part :
    (language : Text) (by : Text → Text) (s : TranscribedSegment) (tail : Text)
    → IsMarkable language s
    → replace_tags by 0 (part_of language s ++ tail)
      ≡ spoken language by s ++ replace_tags by 0 tail
unfolding part_of
replace_tags-part language by s tail (plain, code) =
    elim (Bool-cases (in_target_language language s)) [
      | inl e ↦ rw e (replace_tags-plain by s.text tail plain)
      | inr e ↦
          rw (e, wrapped s tail)
            (replace_tags-mark by (lang_code s.language) s.text tail (code e) plain)
    ]

find_tags-part :
    (language : Text) (s : TranscribedSegment) (tail : Text)
    → IsMarkable language s
    → find_tags 0 (part_of language s ++ tail)
      ≡ (if in_target_language language s then [] else s.text ∷ []) ++ find_tags 0 tail
unfolding part_of
find_tags-part language s tail (plain, code) = elim (Bool-cases (in_target_language language s)) [
  | inl e ↦ rw e (find_tags-plain s.text tail plain)
  | inr e ↦
      rw (e, wrapped s tail) (find_tags-mark (lang_code s.language) s.text tail (code e) plain)
]

IsPlain-space : All IsPlain space
IsPlain-space = ((refl, refl), tt)

joined-cons : (p q : Text) (ps : List Text) → joined (p ∷ q ∷ ps) ≡ p ++ (space ++ joined (q ∷ ps))
unfolding joined
joined-cons p q ps = append_assoc p space (joined (q ∷ ps))

replace_tags-joined :
    (language : Text) (by : Text → Text) (ss : List TranscribedSegment)
    → All (IsMarkable language) ss
    → replace_tags by 0 (joined (map (part_of language) ss)) ≡ joined (map (spoken language by) ss)
unfolding joined replace_tags
replace_tags-joined language by [] h = refl
replace_tags-joined language by (s ∷ []) h =
    ap (replace_tags by 0) (sym (append-nil (part_of language s)))
    ∙ replace_tags-part language by s [] h.0
    ∙ append-nil (spoken language by s)
replace_tags-joined language by (s ∷ t ∷ ss) h =
    ap (replace_tags by 0)
      (joined-cons (part_of language s) (part_of language t) (map (part_of language) ss))
    ∙ replace_tags-part language by s (space ++ joined (map (part_of language) (t ∷ ss))) h.0
    ∙ ap (λ tail. spoken language by s ++ tail)
        (replace_tags-plain by space (joined (map (part_of language) (t ∷ ss))) IsPlain-space
          ∙ ap (λ tail. space ++ tail) (replace_tags-joined language by (t ∷ ss) h.1))
    ∙ sym (joined-cons (spoken language by s) (spoken language by t) (map (spoken language by) ss))

-- The texts of the segments in another language.
abbrev pub other_texts : Text → List TranscribedSegment → List Text
other_texts language ss = map (λ s. s.text) (keep_if (λ s. not (in_target_language language s)) ss)

other_texts-cons :
    (language : Text) (s : TranscribedSegment) (ss : List TranscribedSegment)
    → other_texts language (s ∷ ss)
      ≡ (if in_target_language language s then [] else s.text ∷ []) ++ other_texts language ss
other_texts-cons language s ss = elim (Bool-cases (in_target_language language s)) [
  | inl e ↦ rw e refl
  | inr e ↦ rw e refl
]

find_tags-joined :
    (language : Text) (ss : List TranscribedSegment)
    → All (IsMarkable language) ss
    → find_tags 0 (joined (map (part_of language) ss)) ≡ other_texts language ss
unfolding joined find_tags
find_tags-joined language [] h = refl
find_tags-joined language (s ∷ []) h =
    ap (find_tags 0) (sym (append-nil (part_of language s)))
    ∙ find_tags-part language s [] h.0
    ∙ sym (other_texts-cons language s [])
find_tags-joined language (s ∷ t ∷ ss) h =
    ap (find_tags 0)
      (joined-cons (part_of language s) (part_of language t) (map (part_of language) ss))
    ∙ find_tags-part language s (space ++ joined (map (part_of language) (t ∷ ss))) h.0
    ∙ ap (λ found. (if in_target_language language s then [] else s.text ∷ []) ++ found)
        (find_tags-plain space (joined (map (part_of language) (t ∷ ss))) IsPlain-space
          ∙ find_tags-joined language (t ∷ ss) h.1)
    ∙ sym (other_texts-cons language s (t ∷ ss))

-- The segments that the events bring, each a result of recognized speech with a text.
unfoldable pub segments_of : Text → List Event → List TranscribedSegment
segments_of language [] = []
segments_of language (recognized recognized_speech (c ∷ text) detected confidence ∷ es) =
    record { text = c ∷ text; language = or_text detected language; confidence = confidence }
    ∷ segments_of language es
segments_of language (e ∷ es) = segments_of language es

-- The event is no error.
abbrev pub IsHarmless : Event → Type 0
IsHarmless (canceled is_error details) = is_error ≡ false
IsHarmless e = Unit

handle_events-segments :
    (language : Text) (es : List Event) (h : Hearing)
    → All IsHarmless es
    → ((handle_events language es h).segments ≡ h.segments ++ segments_of language es)
      × ((handle_events language es h).canceled_error ≡ h.canceled_error)
unfolding handle_events segments_of
handle_events-segments language [] h harmless = (sym (append-nil h.segments), refl)
handle_events-segments language (recognized recognized_speech (c ∷ text) detected confidence ∷ es) h
      harmless =
    let s : TranscribedSegment = record {
      text = c ∷ text;
      language = or_text detected language;
      confidence = confidence;
    } in
    let (segments, error) =
      handle_events-segments language es (record h { segments = h.segments ++ s ∷ [] })
        harmless.1 in
    (segments ∙ append_assoc h.segments (s ∷ []) (segments_of language es), error)
handle_events-segments language (recognized recognized_speech [] detected confidence ∷ es) h
      harmless =
    handle_events-segments language es h harmless.1
handle_events-segments language (recognized (no_match reason) text detected confidence ∷ es) h
      harmless =
    handle_events-segments language es
      (record h { no_match_reasons = h.no_match_reasons ++ reason ∷ [] }) harmless.1
handle_events-segments language (recognized other_reason text detected confidence ∷ es) h harmless =
    handle_events-segments language es h harmless.1
handle_events-segments language (canceled true details ∷ es) h harmless = cc
handle_events-segments language (canceled false details ∷ es) h harmless =
    handle_events-segments language es (record h { is_done = true }) harmless.1
handle_events-segments language (session_stopped ∷ es) h harmless =
    handle_events-segments language es (record h { is_done = true }) harmless.1

spoken_id :
    (language : Text) (ss : List TranscribedSegment)
    → map (spoken language (λ u. u)) ss ≡ map (λ s. s.text) ss
spoken_id language [] = refl
spoken_id language (s ∷ ss) = elim (Bool-cases (in_target_language language s)) [
  | inl e ↦ rw e (ap (λ ts. s.text ∷ ts) (spoken_id language ss))
  | inr e ↦ rw e (ap (λ ts. s.text ∷ ts) (spoken_id language ss))
]

-- After events without an error, and with some segment, whose segments can all be marked: the transcript,
-- with its marks removed, is the texts of the segments in their order; with the marks replaced by a blank, it
-- is the texts in the target language, and a blank for each other; and the marks hold exactly the texts of
-- the segments in another language.
pub transcribe_impl-tags :
    (language : Text) (es : List Event) (s : TranscribedSegment) (ss : List TranscribedSegment)
    → segments_of language es ≡ s ∷ ss
    → All IsHarmless es
    → All (IsMarkable language) (s ∷ ss)
    → (text : Text) × (transcribe_impl language es
        ≡ transcribed (some text) (avg_confidence (s ∷ ss)))
      × (unwrap_language_tags text ≡ joined (map (λ s. s.text) (s ∷ ss)))
      × (strip_non_target_segments text ≡ joined (map (spoken language (λ u. space)) (s ∷ ss)))
      × (extract_non_target_segments text ≡ other_texts language (s ∷ ss))
unfolding transcribe_impl unwrap_language_tags strip_non_target_segments extract_non_target_segments
transcribe_impl-tags language es s ss e harmless h =
    let (segments, error) = handle_events-segments language es nothing_heard harmless in
    (
      joined (map (part_of language) (s ∷ ss)),
      rw (finish, error, segments, e) refl,
      replace_tags-joined language (λ u. u) (s ∷ ss) h ∙ ap joined (spoken_id language (s ∷ ss)),
      replace_tags-joined language (λ u. space) (s ∷ ss) h,
      find_tags-joined language (s ∷ ss) h,
    )
