-- ===== src/Realtime/TurnLimit/Limits.antt =====
-- What the limits may do to a decision.
use voxenta_agentic_ai.Prelude.{
  ℕ, suc, ◌+◌, ◌<◌, ℤ, ◌≡◌, refl, true, false, ◌⊎◌, Option, none, some, List, [], ◌∷◌, ◌++◌,
  reverse-append, arith, if◌then◌else◌,
}
use voxenta_agentic_ai.Realtime.Turn.{Turn, Decision}
use voxenta_agentic_ai.Realtime.TurnLimit.{
  TurnLimitPolicy, is_clarification_reason, leading_clarifications, trailing_clarifications,
  structured_turn_limit, reaches, apply_budgets, apply_turn_limit, max_clarifications_reached,
  speech_budget_reached, max_turns_reached,
}

-- The budget of turns leaves room: a clarification is free under a structured limit.
abbrev pub WithinBudget : Decision → TurnLimitPolicy → Option (ℤ × ℤ) → Type 0
WithinBudget d p none = p.legacy_last_allowed ≡ false
WithinBudget d p (some (count, most)) =
    is_clarification_reason d.reason ≡ false → reaches count most ≡ false

-- No limit stands against going on.
abbrev pub MayGoOn : Decision → TurnLimitPolicy → ℕ → Type 0
MayGoOn d p trailing =
    (is_clarification_reason d.reason ≡ true → trailing + 1 < 3)
    × (p.speech_budget_exceeded ≡ false)
    × WithinBudget d p (structured_turn_limit p)

budgets_pass :
    (d : Decision) (p : TurnLimitPolicy) (limit : Option (ℤ × ℤ))
    → structured_turn_limit p ≡ limit
    → d.should_continue ≡ true
    → ((apply_budgets p d).should_continue ≡ true
        → (p.speech_budget_exceeded ≡ false) × WithinBudget d p limit)
      × ((p.speech_budget_exceeded ≡ false) → WithinBudget d p limit → apply_budgets p d ≡ d)
unfolding apply_budgets
budgets_pass d p none e c = (λ h. ground (arith, e), λ h k. ground (arith, e))
budgets_pass d p (some (count, most)) e c = (λ h. ground (arith, e), λ h k. ground (arith, e))

module _ (d : Decision) (p : TurnLimitPolicy) (trailing : ℕ) where
  -- A decision to go on is kept, unchanged, exactly where no limit stands against it: fewer than three
  -- clarifications in a row with this one, a speech budget that is not spent, and room in the budget of
  -- turns, which a clarification does not use up. A decision to stop is never changed.
  pub apply_turn_limit_lem :
      ((apply_turn_limit d p trailing).should_continue ≡ true
        → (d.should_continue ≡ true) × MayGoOn d p trailing × (apply_turn_limit d p trailing ≡ d))
      × (d.should_continue ≡ true → MayGoOn d p trailing → apply_turn_limit d p trailing ≡ d)
      × (d.should_continue ≡ false → apply_turn_limit d p trailing ≡ d)
  unfolding apply_turn_limit
  apply_turn_limit_lem =
      let pass = budgets_pass d p (structured_turn_limit p) refl in
      (λ h. ground (arith, pass), λ c m. ground (arith, pass c), λ c. ground arith)

  -- A decision to go on that a limit overrules asks nothing more, and says which limit it was.
  pub overruled :
      d.should_continue ≡ true
      → (apply_turn_limit d p trailing).should_continue ≡ false
      → let d' = apply_turn_limit d p trailing in
        (d'.next_prompt_text ≡ none)
        × (d'.active_prompt_text ≡ d.active_prompt_text)
        × ((d'.reason ≡ some max_clarifications_reached)
            ⊎ (d'.reason ≡ some speech_budget_reached)
            ⊎ (d'.reason ≡ some max_turns_reached))
  unfolding apply_turn_limit apply_budgets
  overruled c h = ground arith

-- One more turn at the end.
pub trailing-append :
    (ts : List Turn) (t : Turn)
    → trailing_clarifications (ts ++ t ∷ [])
      ≡ (if is_clarification_reason t.decision_reason then suc (trailing_clarifications ts) else 0)
unfolding trailing_clarifications
trailing-append ts t = rw reverse-append (unfold leading_clarifications in refl)
