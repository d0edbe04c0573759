-- ===== src/Evaluation/Scale/Range.antt =====
-- A scaled score lies in the range of the rubric, and keeps the order of the scores.
use voxenta_agentic_ai.Prelude.{
  ℕ, ◌-◌, ◌*◌, ◌≤◌, ◌<◌, ◌≡◌, ◌∙◌, ap, false, refl, min, some, leb, arith,
}
use native.Mathlib.Nat.{mul-le-mul_right}
use voxenta_agentic_ai.Evaluation.Scale.{Rounding, scaled, scale_number, scale_hundred_mark_score}

-- Rounding to hundredths crosses no hundredth, and keeps the order.
pub record IsRounding (round : Rounding) : Type 0 where
  pub below : (n k : ℕ) → n ≤ k * 10000 → round n 10000 ≤ k
  pub above : (n k : ℕ) → k * 10000 ≤ n → k ≤ round n 10000
  pub monotone : (m n : ℕ) → m ≤ n → round m 10000 ≤ round n 10000

scale_number-range :
    (round : Rounding) (azure low high : ℕ)
    → IsRounding round
    → low ≤ high
    → (low ≤ scale_number round azure low high) × (scale_number round azure low high ≤ high)
unfolding scale_number
scale_number-range round azure low high r h =
    (r.above _ low (omega (arith, h)), r.below _ high (omega (arith, h)))

rounded_exact : (round : Rounding) (n k : ℕ) → IsRounding round → n ≡ k * 10000 → round n 10000 ≡ k
rounded_exact round n k r e =
    omega (arith, r.below n k (omega (arith, e)), r.above n k (omega (arith, e)))

scale_number-least :
    (round : Rounding) (low high : ℕ)
    → IsRounding round
    → low ≤ high
    → scale_number round 0 low high ≡ low
unfolding scale_number
scale_number-least round low high r h = rounded_exact round _ low r (omega (arith, h))

scale_number-greatest :
    (round : Rounding) (azure low high : ℕ)
    → IsRounding round
    → low ≤ high
    → 10000 ≤ azure
    → scale_number round azure low high ≡ high
unfolding scale_number
scale_number-greatest round azure low high r h top =
    let full : min 10000 azure ≡ 10000 = omega (arith, top) in
    rw full (rounded_exact round _ high r (omega (arith, h)))

scale_number-monotone :
    (round : Rounding) (azure more low high : ℕ)
    → IsRounding round
    → azure ≤ more
    → scale_number round azure low high ≤ scale_number round more low high
unfolding scale_number
scale_number-monotone round azure more low high r h =
    let bounded : min 10000 azure ≤ min 10000 more = omega (arith, h) in
    r.monotone _ _ (omega (arith, mul-le-mul_right (high - low) bounded))

-- For a rounding that crosses no hundredth and keeps the order, and a range that is not empty: two scores in
-- order become two scores of the range in the same order, 0 becomes its least score, and 100 or more its greatest.
pub scale_hundred_mark_score_lem :
    (round : Rounding) (azure more low high : ℕ)
    → IsRounding round
    → low < high
    → azure ≤ more
    → (s : ℕ) × (t : ℕ) × (scale_hundred_mark_score round (some azure) low high ≡ scaled s)
      × (scale_hundred_mark_score round (some more) low high ≡ scaled t)
      × (low ≤ s)
      × (s ≤ t)
      × (t ≤ high)
      × (azure ≡ 0 → s ≡ low)
      × (10000 ≤ more → t ≡ high)
unfolding scale_hundred_mark_score
scale_hundred_mark_score_lem round azure more low high r range order =
    let proper : leb high low ≡ false = ground (arith, range) in
    let le : low ≤ high = omega (arith, range) in
    (
      scale_number round azure low high,
      scale_number round more low high,
      rw proper refl,
      rw proper refl,
      (scale_number-range round azure low high r le).0,
      scale_number-monotone round azure more low high r order,
      (scale_number-range round more low high r le).1,
      λ e. ap (λ a. scale_number round a low high) e ∙ scale_number-least round low high r le,
      λ top. scale_number-greatest round more low high r le top,
    )
