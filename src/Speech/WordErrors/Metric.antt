-- ===== src/Speech/WordErrors/Metric.antt =====
-- The count of word errors is the same in both directions, and zero for equal lists only.
use voxenta_agentic_ai.Prelude.{ℕ, ◌≡◌, ◌↔◌, refl, ap, List, ◌∷◌, Text, arith}
use voxenta_agentic_ai.Speech.WordErrors.{range_over, sweep_rows}
use voxenta_agentic_ai.Speech.WordErrors.Script.{
  Script, done, copy, replace, erase, insert, Script-flip, copies,
}
use voxenta_agentic_ai.Speech.WordErrors.Rate.{loop-IsCheapest}

-- The numerator of the rate.
abbrev pub errors : List Text → List Text → ℕ
errors reference hypothesis = sweep_rows reference hypothesis 1 0 (range_over 1 hypothesis)

pub errors-flip : (a b : List Text) → errors a b ≡ errors b a
errors-flip a b =
    let (there, least) = loop-IsCheapest a b in
    let (back, less) = loop-IsCheapest b a in
    omega (arith, least _ (Script-flip back), less _ (Script-flip there))

Script-free : {a b : List Text} {n : ℕ} → Script a b n → n ≡ 0 → a ≡ b
Script-free done h = refl
Script-free (copy w s) h = ap (λ t. w ∷ t) (Script-free s h)
Script-free (replace v w s) h = absurd (omega (arith, h))
Script-free (erase v s) h = absurd (omega (arith, h))
Script-free (insert w s) h = absurd (omega (arith, h))

pub errors-zero : (a b : List Text) → (errors a b ≡ 0) ↔ (a ≡ b)
errors-zero a b = (
  λ h. Script-free (loop-IsCheapest a b).0 h,
  λ e. rw e (omega (arith, (loop-IsCheapest b b).1 0 (copies b))),
)
