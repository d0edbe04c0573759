-- ===== src/Scoring/Calls.antt =====
-- `call_with_retry_and_fallback` of src/utils/confidence_utils.py. What a provider does at each call is a
-- parameter.
use voxenta_agentic_ai.Prelude.{ℕ, List, [], ◌∷◌, Text}

-- What a call comes to: a rate limit, another exception, or a result.
pub data Attempt (A : Type 0) : Type 0 where
  rate_limited : Text → Attempt A
  broken : Text → Attempt A
  gave : A → Attempt A

-- What is done on the way.
pub data Doing : Type 0 where
  calls_primary sleeps calls_fallback : Doing

-- The first argument says what the first provider does at its first and at its second call.
unfoldable pub call_with_retry_and_fallback :
    {A : Type 0} → (ℕ → Attempt A) → Attempt A → Attempt A × List Doing
call_with_retry_and_fallback primary fallback = elim (primary 0) [
  | gave a ↦ (gave a, calls_primary ∷ [])
  | rate_limited e ↦ elim (primary 1) [
    | gave a ↦ (gave a, calls_primary ∷ sleeps ∷ calls_primary ∷ [])
    | rate_limited e' ↦ (fallback, calls_primary ∷ sleeps ∷ calls_primary ∷ calls_fallback ∷ [])
    | broken e' ↦ (fallback, calls_primary ∷ sleeps ∷ calls_primary ∷ calls_fallback ∷ [])
  ]
  | broken e ↦ (fallback, calls_primary ∷ calls_fallback ∷ [])
]
