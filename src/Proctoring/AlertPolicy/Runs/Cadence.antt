-- ===== src/Proctoring/AlertPolicy/Runs/Cadence.antt =====
-- When the alerts of a slot go out: not before the streak is full, then at once, and from then on no
-- more than once in each cooldown.
use voxenta_agentic_ai.Prelude.{
  ℕ, ◌+◌, ◌≤◌, ◌≡◌, refl, Bool, true, false, Option, some, List, [], ◌∷◌, ◌++◌, Text, arith, All,
  length,
}
use voxenta_agentic_ai.Proctoring.AlertPolicy.{Settings, Policy, cooldown_elapsed}
use voxenta_agentic_ai.Proctoring.AlertPolicy.Gate.{observe}
use voxenta_agentic_ai.Proctoring.AlertPolicy.Spec.{Slot, slot, step, observe-step}
use voxenta_agentic_ai.Proctoring.AlertPolicy.Runs.{
  Reading, after, alerts_at, samples, slot_after, emissions, alerts_at-eq-emissions, slot-after,
}

-- Each time is at least `gap` behind the one before.
abbrev pub Spaced : ℕ → List ℕ → Type 0
Spaced gap [] = Unit
Spaced gap (a ∷ []) = Unit
Spaced gap (a ∷ b ∷ l) = (a + gap ≤ b) × Spaced gap (b ∷ l)

-- The condition holds at every sample.
abbrev pub Holding : List (Bool × ℕ) → Type 0
Holding rs = All (λ r. r.0 ≡ true) rs

-- How many samples at the end have the condition holding, `n` before the first.
pub held : ℕ → List (Bool × ℕ) → ℕ
held n [] = n
held n ((true, now) ∷ rs) = held (n + 1) rs
held n ((false, now) ∷ rs) = held 0 rs

emissions_active :
    (cfg : Settings) (rs : List (Bool × ℕ)) (n last : ℕ)
    → Holding rs
    → Spaced cfg.alert_cooldown
        (last ∷ emissions cfg rs (record { streak = n; active = true; last_emitted = some last }))
unfolding emissions cooldown_elapsed
emissions_active cfg [] n last h = tt
emissions_active cfg ((false, now) ∷ rs) n last h = cc (h.0)
emissions_active cfg ((true, now) ∷ rs) n last h =
    ground
      (arith, emissions_active cfg rs (n + 1) now h.1, emissions_active cfg rs (n + 1) last h.1)

emissions-Spaced :
    (cfg : Settings) (rs : List (Bool × ℕ)) (s : Slot)
    → Holding rs
    → Spaced cfg.alert_cooldown (emissions cfg rs s)
unfolding emissions
emissions-Spaced cfg [] s h = tt
emissions-Spaced cfg ((false, now) ∷ rs) s h = cc (h.0)
emissions-Spaced cfg ((true, now) ∷ rs) s h = ground (
  arith,
  emissions_active cfg rs (s.streak + 1) now h.1,
  emissions-Spaced cfg rs (record s { streak = s.streak + 1 }) h.1,
)

-- While a condition holds without a break for one session and type, its alerts are at least a cooldown
-- apart, from any state of the policy and whatever other sessions and types do in between.
pub alerts_at-Spaced :
    (cfg : Settings) (session alert_type : Text) (rs : List Reading) (p : Policy)
    → Holding (samples session alert_type rs)
    → Spaced cfg.alert_cooldown (alerts_at cfg session alert_type rs p)
alerts_at-Spaced cfg s t rs p h =
    rw alerts_at-eq-emissions (emissions-Spaced cfg (samples s t rs) (slot p s t) h)

streak-slot_after :
    (cfg : Settings) (rs : List (Bool × ℕ)) (s : Slot)
    → (slot_after cfg rs s).streak ≡ held s.streak rs
unfolding slot_after held
streak-slot_after cfg [] s = refl
streak-slot_after cfg ((false, now) ∷ rs) s = streak-slot_after cfg rs (step cfg false now s).1
streak-slot_after cfg ((true, now) ∷ rs) s =
    ground (arith, streak-slot_after cfg rs (step cfg true now s).1)

-- From an empty streak, an alert goes out only for a condition that holds now and has held at enough
-- samples of its own session and type without a break, this one included.
pub alert-needs-streak :
    (cfg : Settings) (rs : List Reading) (r : Reading) (p : Policy)
    → (slot p r.session r.alert_type).streak ≡ 0
    → (observe cfg r.session r.alert_type r.holds r.now (after cfg rs p)).0 ≡ true
    → (r.holds ≡ true) × (cfg.alert_streak_frames ≤ held 0 (samples r.session r.alert_type rs) + 1)
alert-needs-streak cfg rs r p e fired = needs r.holds (rw observe-step at fired)
  where
    full :
        (slot (after cfg rs p) r.session r.alert_type).streak
        ≡ held 0 (samples r.session r.alert_type rs)
    full = ground (
      arith,
      slot-after cfg r.session r.alert_type rs p,
      streak-slot_after cfg (samples r.session r.alert_type rs) (slot p r.session r.alert_type),
    )

    needs :
        (h : Bool)
        → (step cfg h r.now (slot (after cfg rs p) r.session r.alert_type)).0 ≡ true
        → (h ≡ true) × (cfg.alert_streak_frames ≤ held 0 (samples r.session r.alert_type rs) + 1)
    needs false f = cc
    needs true f = (refl, ground (arith, full))

emissions_fresh :
    (cfg : Settings) (qs : List (Bool × ℕ)) (now n : ℕ) (last : Option ℕ)
    → Holding qs
    → n + length qs + 1 ≡ cfg.alert_streak_frames
    → emissions cfg
        (qs ++ (true, now) ∷ [])
        (record { streak = n; active = false; last_emitted = last })
      ≡ now ∷ []
unfolding emissions
emissions_fresh cfg [] now n last h e = ground arith
emissions_fresh cfg ((false, t) ∷ qs) now n last h e = cc (h.0)
emissions_fresh cfg ((true, t) ∷ qs) now n last h e =
    ground (arith, emissions_fresh cfg qs now (n + 1) last h.1)

-- A condition that begins to hold after a break is reported once the streak is full: of its first
-- `alert_streak_frames` samples the last one sends an alert, whatever the cooldown, and no other.
pub alert_at_streak :
    (cfg : Settings) (session alert_type : Text) (rs : List Reading) (p : Policy)
    → (qs : List (Bool × ℕ)) (now : ℕ) → samples session alert_type rs ≡ qs ++ (true, now) ∷ []
    → Holding qs
    → length qs + 1 ≡ cfg.alert_streak_frames
    → (slot p session alert_type).streak ≡ 0
    → (slot p session alert_type).active ≡ false
    → alerts_at cfg session alert_type rs p ≡ now ∷ []
alert_at_streak cfg s t rs p qs now split h full e idle = cc (
  alerts_at-eq-emissions cfg s t rs p,
  split,
  e,
  idle,
  emissions_fresh cfg qs now 0 (slot p s t).last_emitted h (omega arith),
)
