-- ===== src/Proctoring/AlertPolicy/Runs.antt =====
-- Sequences of readings: any interleaving of sessions and alert types, one reading for each time that
-- the frame processor passes a condition through the gates.
pub mod Cadence
use voxenta_agentic_ai.Prelude.{
  ℕ, ◌≡◌, refl, Bool, true, false, ◌&&◌, List, [], ◌∷◌, Text, text_eq, ◌==◌, if◌then◌else◌, arith,
  sym,
}
use voxenta_agentic_ai.Proctoring.AlertPolicy.{Settings, Policy}
use voxenta_agentic_ai.Proctoring.AlertPolicy.Gate.{observe}
use voxenta_agentic_ai.Proctoring.AlertPolicy.Spec.{Slot, slot, step, observe-step, slot-observe}

pub record Reading : Type 0 where
  pub session : Text
  pub alert_type : Text
  pub holds : Bool
  pub now : ℕ

-- The state after the readings.
unfoldable pub after : Settings → List Reading → Policy → Policy
after cfg [] p = p
after cfg (r ∷ rs) p = after cfg rs (observe cfg r.session r.alert_type r.holds r.now p).1

-- The times at which alerts of one type went out for one session.
unfoldable pub alerts_at : Settings → Text → Text → List Reading → Policy → List ℕ
alerts_at cfg session alert_type [] p = []
alerts_at cfg session alert_type (r ∷ rs) p =
    let (fired, p') = observe cfg r.session r.alert_type r.holds r.now p in
    let rest = alerts_at cfg session alert_type rs p' in
    if (r.session == session && r.alert_type == alert_type) && fired then r.now ∷ rest else rest

-- The readings of one slot, as whether the condition holds, and when.
unfoldable pub samples : Text → Text → List Reading → List (Bool × ℕ)
samples session alert_type [] = []
samples session alert_type (r ∷ rs) =
    let rest = samples session alert_type rs in
    if r.session == session && r.alert_type == alert_type then (r.holds, r.now) ∷ rest else rest

-- The same for a slot on its own.
pub slot_after : Settings → List (Bool × ℕ) → Slot → Slot
slot_after cfg [] s = s
slot_after cfg ((holds, now) ∷ rs) s = slot_after cfg rs (step cfg holds now s).1

pub emissions : Settings → List (Bool × ℕ) → Slot → List ℕ
emissions cfg [] s = []
emissions cfg ((holds, now) ∷ rs) s =
    let rest = emissions cfg rs (step cfg holds now s).1 in
    if (step cfg holds now s).0 then now ∷ rest else rest

-- However the readings of sessions and alert types interleave, the alerts of one session and one type
-- are those that its own readings cause, as if the others did not exist.
pub alerts_at-eq-emissions :
    (cfg : Settings) (session alert_type : Text) (rs : List Reading) (p : Policy)
    → alerts_at cfg session alert_type rs p
      ≡ emissions cfg (samples session alert_type rs) (slot p session alert_type)
unfolding alerts_at emissions samples
alerts_at-eq-emissions cfg s t [] p = refl
alerts_at-eq-emissions cfg s t (r ∷ rs) p = ground (
  arith,
  alerts_at-eq-emissions cfg s t rs (observe cfg r.session r.alert_type r.holds r.now p).1,
  slot-observe cfg r.session r.alert_type r.holds r.now p s t,
  observe-step cfg r.session r.alert_type r.holds r.now p,
  text_eq.beq_iff r.session s,
  text_eq.beq_iff r.alert_type t,
)

pub slot-after :
    (cfg : Settings) (session alert_type : Text) (rs : List Reading) (p : Policy)
    → slot (after cfg rs p) session alert_type
      ≡ slot_after cfg (samples session alert_type rs) (slot p session alert_type)
unfolding after slot_after samples
slot-after cfg s t [] p = refl
slot-after cfg s t (r ∷ rs) p = ground (
  arith,
  slot-after cfg s t rs (observe cfg r.session r.alert_type r.holds r.now p).1,
  slot-observe cfg r.session r.alert_type r.holds r.now p s t,
  text_eq.beq_iff r.session s,
  text_eq.beq_iff r.alert_type t,
)
