-- ===== src/Usage/Buffer.antt =====
-- No usage item is lost, billed twice, or billed to another answer.
use voxenta_agentic_ai.Prelude.{
  ◌≡◌, ◌∙◌, sym, ap, Option, none, some, List, [], ◌∷◌, ◌++◌, append_assoc, append-nil, ℕ, Text,
  text_eq, ◌==◌, get, get-put, get-remove, get_or, is_empty, if◌then◌else◌, Bool-cases, inl, inr,
}
use voxenta_agentic_ai.Realtime.Transcript.{Fraction}
use voxenta_agentic_ai.Usage.{
  UsageMetadata, Stamp, AiUsageEventItem, UsageBuffer, append_item, llm_item, record_llm_usage,
  duration_item, record_duration_usage, pop_usage,
}

-- The calls of the tracker.
pub data Call : Type 0 where
  llm_call : (stamp : Stamp) (answer_id provider model : Text) (usage : Option UsageMetadata) → Call
  duration_call : (stamp : Stamp) (answer_id provider : Text) (duration_us : Option ℕ) → Call
  pop_call : (answer_id : Text) → Call

-- The items of an answer in the buffer.
unfoldable pub items : UsageBuffer → Text → List AiUsageEventItem
items buffer a = get_or (get buffer a) []

-- The items for an answer that a record brings: at most one.
unfoldable pub if_for : Text → Text → AiUsageEventItem → List AiUsageEventItem
if_for a answer_id item =
    if is_empty answer_id then [] else if answer_id == a then item ∷ [] else []

module _ (round_8 : Fraction → Fraction) where
  -- What is handed out for the answer, and the buffer after the call.
  unfoldable pub perform : Text → Call → UsageBuffer → List AiUsageEventItem × UsageBuffer
  unfolding record_llm_usage record_duration_usage pop_usage
  perform a (llm_call stamp answer_id provider model usage) buffer =
      ([], record_llm_usage round_8 stamp answer_id provider model usage buffer)
  perform a (duration_call stamp answer_id provider duration_us) buffer =
      ([], record_duration_usage round_8 stamp answer_id provider duration_us buffer)
  perform a (pop_call answer_id) buffer =
      let (popped, rest) = pop_usage answer_id buffer in
      (if answer_id == a then popped else [], rest)

  unfoldable pub perform_all : Text → List Call → UsageBuffer → List AiUsageEventItem × UsageBuffer
  unfolding perform
  perform_all a [] buffer = ([], buffer)
  perform_all a (call ∷ calls) buffer =
      let (out, next) = perform a call buffer in
      let (later, last) = perform_all a calls next in (out ++ later, last)

  -- The items that the calls record for the answer, in their order.
  unfoldable pub recorded_by : Text → Call → List AiUsageEventItem
  unfolding if_for llm_item duration_item
  recorded_by a (llm_call stamp answer_id provider model none) = []
  recorded_by a (llm_call stamp answer_id provider model (some usage)) =
      if_for a answer_id (llm_item round_8 stamp provider model usage)
  recorded_by a (duration_call stamp answer_id provider none) = []
  recorded_by a (duration_call stamp answer_id provider (some duration_us)) =
      if_for a answer_id (duration_item round_8 stamp provider duration_us)
  recorded_by a (pop_call answer_id) = []

  unfoldable pub recorded_by_all : Text → List Call → List AiUsageEventItem
  unfolding recorded_by
  recorded_by_all a [] = []
  recorded_by_all a (call ∷ calls) = recorded_by a call ++ recorded_by_all a calls

  items-append :
      (a answer_id : Text) (item : AiUsageEventItem) (buffer : UsageBuffer)
      → items (if is_empty answer_id then buffer else append_item answer_id item buffer) a
        ≡ items buffer a ++ if_for a answer_id item
  unfolding items append_item if_for
  items-append a [] item buffer = sym (append-nil (items buffer a))
  items-append a (c ∷ id) item buffer = elim (Bool-cases ((c ∷ id) == a)) [
    | inl e ↦
        rw (get-put buffer (c ∷ id) a (items buffer (c ∷ id) ++ item ∷ []), e)
          (ap (λ k. items buffer k ++ item ∷ []) ((text_eq.beq_iff (c ∷ id) a).0 e))
    | inr e ↦
        rw (get-put buffer (c ∷ id) a (items buffer (c ∷ id) ++ item ∷ []), e)
          (sym (append-nil (items buffer a)))
  ]

  perform-items :
      (a : Text) (call : Call) (buffer : UsageBuffer)
      → let (out, next) = perform a call buffer in
        out ++ items next a ≡ items buffer a ++ recorded_by a call
  unfolding perform recorded_by items
  perform-items a (llm_call stamp answer_id provider model none) buffer =
      sym (append-nil (items buffer a))
  perform-items a (llm_call stamp answer_id provider model (some usage)) buffer =
      items-append a answer_id (llm_item round_8 stamp provider model usage) buffer
  perform-items a (duration_call stamp answer_id provider none) buffer =
      sym (append-nil (items buffer a))
  perform-items a (duration_call stamp answer_id provider (some duration_us)) buffer =
      items-append a answer_id (duration_item round_8 stamp provider duration_us) buffer
  perform-items a (pop_call answer_id) buffer = elim (Bool-cases (answer_id == a)) [
    | inl e ↦
        rw (items, get-remove buffer answer_id a, e)
          (ap (λ k. items buffer k ++ []) ((text_eq.beq_iff answer_id a).0 e))
    | inr e ↦ rw (items, get-remove buffer answer_id a, e) (sym (append-nil (items buffer a)))
  ]

  -- Over any calls: what is handed out for an answer, and then what its buffer holds, is what it held at first and
  -- then what the calls recorded for it, each item once and in this order; calls for other answers change
  -- nothing of it.
  pub perform_all-items :
      (a : Text) (calls : List Call) (buffer : UsageBuffer)
      → let (out, last) = perform_all a calls buffer in
        out ++ items last a ≡ items buffer a ++ recorded_by_all a calls
  unfolding perform_all recorded_by_all
  perform_all-items a [] buffer = sym (append-nil (items buffer a))
  perform_all-items a (call ∷ calls) buffer =
      let (out, next) = perform a call buffer in
      let (later, last) = perform_all a calls next in
      append_assoc out later (items last a)
      ∙ ap (λ rest. out ++ rest) (perform_all-items a calls next)
      ∙ sym (append_assoc out (items next a) (recorded_by_all a calls))
      ∙ ap (λ front. front ++ recorded_by_all a calls) (perform-items a call buffer)
      ∙ append_assoc (items buffer a) (recorded_by a call) (recorded_by_all a calls)
