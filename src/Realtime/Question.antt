-- ===== src/Realtime/Question.antt =====
-- `QuestionContext` of src/node/state_models/speaking_input.py: the question that a client sends. The
-- evaluation guide and the asset, which the realtime side only hands on, are left out.
pub mod Window
use voxenta_agentic_ai.Prelude.{
  ℕ, ℤ, pos, negsuc, ltb_ℤ, Bool, true, false, not, Option, none, some, Text, if◌then◌else◌,
}

-- src/schemas/enums.py
pub data QuestionType : Type 0 where
  read_aloud short_answer long_answer opinion description : QuestionType

pub record QuestionContext : Type 0 where
  pub question_text : Option Text
  pub question_type : Option QuestionType
  pub duration_seconds : Option ℤ
  pub min_response_seconds : Option ℤ
  pub max_response_seconds : Option ℤ

-- `if x is not None and x <= 0: x = None`
unfoldable pub positive_or_none : Option ℤ → Option ℤ
positive_or_none none = none
positive_or_none (some x) = if ltb_ℤ (pos 0) x then some x else none

-- The model validator `_sanitize_response_window`.
unfoldable pub sanitize_response_window : QuestionContext → QuestionContext
unfolding positive_or_none
sanitize_response_window q =
    let least = positive_or_none q.min_response_seconds in
    let most = positive_or_none q.max_response_seconds in
    let kept = record q { min_response_seconds = least; max_response_seconds = most } in
    let dropped = record q { min_response_seconds = none; max_response_seconds = none } in
    elim least [
      | none ↦ kept
      | some a ↦ elim most [ none ↦ kept | some b ↦ if ltb_ℤ b a then dropped else kept ]
    ]
