-- ===== src/Realtime/Publisher/Payloads.antt =====
-- What is published of a turn.
use voxenta_agentic_ai.Prelude.{
  ◌≡◌, ◌↔◌, refl, Bool, true, false, Option, none, some, length, Text, split, inl, inr, Bool-cases,
  arith,
}
use voxenta_agentic_ai.Realtime.Turn.{Turn}
use voxenta_agentic_ai.Realtime.Processor.{PublishRequest}
use voxenta_agentic_ai.Realtime.Publisher.{transcript_of, build_answer_turn_payload, is_blank}

abbrev pub blank_option : Option Text → Bool
blank_option none = true
blank_option (some text) = is_blank text

-- A turn is published without a transcript only if neither the recording nor the live transcript has
-- one. A transcript of the recording that is not blank is published as it is, with its word count. If it
-- is blank and the live one is not, the live one is published with the number of its words.
pub build_answer_turn_payload_lem :
    (t : Turn) (r : PublishRequest) (live : Option Text)
    → let p = build_answer_turn_payload t r live in
      ((is_blank p.transcript ≡ true)
        ↔ ((is_blank t.transcript ≡ true) × (blank_option live ≡ true)))
      × (is_blank t.transcript ≡ false
          → (p.transcript ≡ t.transcript) × (p.word_count ≡ t.word_count))
      × ((text : Text)
          → is_blank t.transcript ≡ true
          → live ≡ some text
          → is_blank text ≡ false
          → (p.transcript ≡ text) × (p.word_count ≡ length (split text)))
unfolding build_answer_turn_payload transcript_of
build_answer_turn_payload_lem t r none =
    ((λ h. (h, refl), λ h. h.0), λ h. (refl, refl), λ text h e k. absurd (ground arith))
build_answer_turn_payload_lem t r (some live) = elim (Bool-cases (is_blank t.transcript)) [
  | inl b ↦ elim (Bool-cases (is_blank live)) [
    | inl c ↦ ground (arith, b, c)
    | inr c ↦ ground (arith, b, c)
  ]
  | inr b ↦ ground (arith, b)
]
