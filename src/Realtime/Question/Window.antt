-- ===== src/Realtime/Question/Window.antt =====
-- The response window behind the validator.
use voxenta_agentic_ai.Prelude.{◌≤◌, ◌<◌, ℤ, pos_part, ◌≡◌, Option, none, some, arith}
use voxenta_agentic_ai.Realtime.Question.{QuestionContext, sanitize_response_window}

-- A bound that is there is positive.
abbrev pub IsPositive : Option ℤ → Type 0
IsPositive none = Unit
IsPositive (some x) = 0 < pos_part x

-- The window is not empty where both bounds are there.
abbrev pub IsOrdered : Option ℤ → Option ℤ → Type 0
IsOrdered (some a) (some b) = pos_part a ≤ pos_part b
IsOrdered _ _ = Unit

abbrev pub IsSane : QuestionContext → Type 0
IsSane q =
    IsPositive q.min_response_seconds
    × IsPositive q.max_response_seconds
    × IsOrdered q.min_response_seconds q.max_response_seconds

-- Whatever a client sends, the window behind the validator is sane, and a window that was sane is
-- kept as it was.
pub sanitize_response_window_lem :
    (q : QuestionContext)
    → IsSane (sanitize_response_window q) × (IsSane q → sanitize_response_window q ≡ q)
unfolding sanitize_response_window
sanitize_response_window_lem q = (ground arith, λ h. ground arith)
