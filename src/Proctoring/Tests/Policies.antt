-- ===== src/Proctoring/Tests/Policies.antt =====
-- The alert policy at concrete readings. The clock counts milliseconds.
use voxenta_agentic_ai.Prelude.{
  ℕ, ◌+◌, ◌≤◌, ◌≡◌, refl, Bool, true, false, List, [], ◌∷◌, ◌++◌, Text, text_eq, codes, get, put,
  mem, add, discard,
}
use voxenta_agentic_ai.Proctoring.AlertPolicy.{
  Settings, fresh, phone_detected, object_alert_type, cooldown_elapsed,
}
use voxenta_agentic_ai.Proctoring.AlertPolicy.Gate.{observe}
use voxenta_agentic_ai.Proctoring.AlertPolicy.Spec.{slot}
use voxenta_agentic_ai.Proctoring.AlertPolicy.Runs.{
  Reading, after, alerts_at, samples, emissions, alerts_at-eq-emissions,
}
use voxenta_agentic_ai.Proctoring.AlertPolicy.Runs.Cadence.{
  held, alert-needs-streak, alert_at_streak,
}

abbrev cfg : Settings
cfg = record {
  alert_cooldown = 5000;
  alert_streak_frames = 3;
  yolo_frame_skip = 10;
  yolo_confidence = 500_000;
  max_connections = 2;
}

abbrev anna : Text
anna = codes "anna"

abbrev ben : Text
ben = codes "ben"

abbrev phone : Text → Bool → ℕ → Reading
phone session holds now = record {
  session = session;
  alert_type = phone_detected;
  holds = holds;
  now = now;
}

-- A phone stays in Anna's picture; another comes and goes in Ben's.
abbrev readings : List Reading
readings =
    phone anna true 0
    ∷ phone ben true 100
    ∷ phone anna true 400
    ∷ phone ben false 500
    ∷ phone anna true 800
    ∷ phone anna true 1200
    ∷ phone anna true 5800
    ∷ []

anna_is_reported : alerts_at cfg anna phone_detected readings fresh ≡ 800 ∷ 5800 ∷ []
unfolding alerts_at observe cooldown_elapsed get put mem add discard
anna_is_reported = refl

a_phone : object_alert_type (codes " Cell Phone") ≡ phone_detected
unfolding object_alert_type
a_phone = refl

a_mouse : object_alert_type (codes "mouse") ≡ []
unfolding object_alert_type
a_mouse = refl

alerts_at-eq-emissions_example :
    alerts_at cfg anna phone_detected readings fresh
    ≡ emissions cfg (samples anna phone_detected readings) (slot fresh anna phone_detected)
alerts_at-eq-emissions_example = alerts_at-eq-emissions cfg anna phone_detected readings fresh

abbrev two : List Reading
two = phone anna true 0 ∷ phone ben true 100 ∷ phone anna true 400 ∷ []

alert-needs-streak_example : (true ≡ true) × (3 ≤ held 0 (samples anna phone_detected two) + 1)
unfolding after observe get put mem add discard
alert-needs-streak_example = alert-needs-streak cfg two (phone anna true 800) fresh refl refl

alert_at_streak_example :
    alerts_at cfg anna phone_detected (two ++ phone anna true 800 ∷ []) fresh ≡ 800 ∷ []
unfolding samples get mem
alert_at_streak_example =
    alert_at_streak cfg anna phone_detected (two ++ phone anna true 800 ∷ []) fresh
      ((true, 0) ∷ (true, 400) ∷ []) 800 refl (refl, (refl, tt)) refl refl refl
