-- ===== src/Proctoring/Tests/Worlds.antt =====
-- Connections and sessions at concrete worlds.
use voxenta_agentic_ai.Prelude.{
  ℕ, ◌≡◌, refl, Bool, true, false, some, Text, text_eq, ℕ_eq, codes, get, mem, arith,
}
use voxenta_agentic_ai.Proctoring.AlertPolicy.{Settings, fresh}
use voxenta_agentic_ai.Proctoring.Session.{no_identity, empty, is_current_connection}
use voxenta_agentic_ai.Proctoring.Controller.{
  World, disconnected, accepted, max_connections_reached, offer, on_connectionstatechange,
}
use voxenta_agentic_ai.Proctoring.Controller.Reconnect.{stale_connection_harmless}
use voxenta_agentic_ai.Proctoring.Controller.Capacity.{
  IsSound, Reach, start, next, offered, Reach-IsSound,
}

abbrev cfg : Settings
cfg = record {
  alert_cooldown = 5000;
  alert_streak_frames = 3;
  yolo_frame_skip = 10;
  yolo_confidence = 500_000;
  max_connections = 1;
}

abbrev anna : Text
anna = codes "anna"

abbrev w₀ : World
w₀ = record { registry = empty; policy = fresh }

abbrev w₁ : World
w₁ = (offer cfg anna no_identity 1 w₀).1

abbrev closes : ℕ → Bool
closes pc = false

-- The limit is one: a second session is refused.
full : (offer cfg (codes "ben") no_identity 2 w₁).0 ≡ max_connections_reached
unfolding offer get
full = refl

w₁-Reach : Reach cfg closes w₁
unfolding mem
w₁-Reach = next start (offered anna no_identity 1 refl)

Reach-IsSound_example : IsSound 1 w₁.registry
Reach-IsSound_example = Reach-IsSound cfg closes w₁-Reach

mapped : get w₁.registry.session_map anna ≡ some 1
unfolding offer get
mapped = refl

again : (offer cfg anna no_identity 2 w₁).0 ≡ accepted true
unfolding offer get
again = refl

stale_connection_harmless_example :
    (is_current_connection anna 2 (offer cfg anna no_identity 2 w₁).1.registry ≡ true)
    × (on_connectionstatechange closes anna 1 disconnected (offer cfg anna no_identity 2 w₁).1
        ≡ (offer cfg anna no_identity 2 w₁).1)
stale_connection_harmless_example =
    stale_connection_harmless cfg anna no_identity 2 w₁ closes true 1 disconnected again
      (omega arith)
