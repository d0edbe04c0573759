-- ===== src/Speech/Tests.antt =====
-- The theorems on transcripts at concrete inputs.
use voxenta_agentic_ai.Prelude.{
  ℕ, ◌≡◌, ◌≤◌, refl, none, some, List, [], ◌∷◌, length, codes, Text, All, joined, map, space,
}
use voxenta_agentic_ai.Speech.Tags.{
  strip_non_target_segments, extract_non_target_segments, unwrap_language_tags,
}
use voxenta_agentic_ai.Speech.Tags.Marks.{is_tag_code}
use voxenta_agentic_ai.Speech.Transcription.{
  TranscribedSegment, Event, recognized, recognized_speech, no_match, session_stopped, transcribed,
  avg_confidence, transcribe_impl, in_target_language, lang_code,
}
use voxenta_agentic_ai.Speech.Transcription.Roundtrip.{
  IsMarkable, IsHarmless, spoken, segments_of, other_texts, transcribe_impl-tags,
}
use voxenta_agentic_ai.Speech.WordErrors.{word_error_rate}
use voxenta_agentic_ai.Speech.WordErrors.Script.{Script}
use voxenta_agentic_ai.Speech.WordErrors.Rate.{word_error_rate_lem}

abbrev said : List Text
said = codes "i" ∷ codes "like" ∷ codes "green" ∷ codes "tea" ∷ []

abbrev heard_as : List Text
heard_as = codes "i" ∷ codes "like" ∷ codes "a" ∷ codes "greek" ∷ codes "tea" ∷ []

word_error_rate_lem_example :
    (n : ℕ) × (word_error_rate said heard_as
      ≡ some (record { numerator = n; denominator = length said }))
    × Script said heard_as n
    × ((k : ℕ) → Script said heard_as k → n ≤ k)
word_error_rate_lem_example =
    word_error_rate_lem (codes "i") (codes "like" ∷ codes "green" ∷ codes "tea" ∷ []) heard_as

-- The rate is a half: one word replaced, one inserted.
half : word_error_rate said heard_as ≡ some (record { numerator = 2; denominator = 4 })
unfolding word_error_rate
half = refl

abbrev english : Text
english = codes "en-US"

abbrev events : List Event
events =
    recognized recognized_speech (codes "I eat") english (some 900000)
    ∷ recognized (no_match (codes "InitialSilenceTimeout")) [] [] none
    ∷ recognized recognized_speech (codes "com") (codes "vi-VN") (some 600000)
    ∷ session_stopped
    ∷ []

abbrev i_eat : TranscribedSegment
i_eat = record { text = codes "I eat"; language = english; confidence = some 900000 }

abbrev rice : TranscribedSegment
rice = record { text = codes "com"; language = codes "vi-VN"; confidence = some 600000 }

segments : segments_of english events ≡ i_eat ∷ rice ∷ []
unfolding segments_of
segments = refl

All-IsHarmless : All IsHarmless events
All-IsHarmless = (tt, (tt, (tt, (tt, tt))))

All-IsMarkable : All (IsMarkable english) (i_eat ∷ rice ∷ [])
unfolding is_tag_code lang_code in_target_language
All-IsMarkable = (
  (
    ((refl, refl), ((refl, refl), ((refl, refl), ((refl, refl), ((refl, refl), tt))))),
    λ e. absurd cc,
  ),
  ((((refl, refl), ((refl, refl), ((refl, refl), tt))), λ e. refl), tt),
)

transcribe_impl-tags_example :
    (text : Text) × (transcribe_impl english events
      ≡ transcribed (some text) (avg_confidence (i_eat ∷ rice ∷ [])))
    × (unwrap_language_tags text ≡ joined (map (λ s. s.text) (i_eat ∷ rice ∷ [])))
    × (strip_non_target_segments text
        ≡ joined (map (spoken english (λ u. space)) (i_eat ∷ rice ∷ [])))
    × (extract_non_target_segments text ≡ other_texts english (i_eat ∷ rice ∷ []))
transcribe_impl-tags_example =
    transcribe_impl-tags english events i_eat (rice ∷ []) segments All-IsHarmless All-IsMarkable
