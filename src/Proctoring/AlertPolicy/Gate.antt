-- ===== src/Proctoring/AlertPolicy/Gate.antt =====
-- How src/infra/webrtc/proctoring_frame_processor.py uses the policy for one alert type: both gates,
-- in order, while the condition holds, and a reset of both where it does not.
use voxenta_agentic_ai.Prelude.{ℕ, Bool, false, Text, if◌then◌else◌}
use voxenta_agentic_ai.Proctoring.AlertPolicy.{
  Settings, Policy, should_emit_alert, clear_alert, condition_confirmed, reset_streak,
}

-- `condition_confirmed(...) and should_emit_alert(...)`: the second is not called if the first fails.
unfoldable pub confirm_and_emit : Settings → Text → Text → ℕ → Policy → Bool × Policy
unfolding condition_confirmed should_emit_alert
confirm_and_emit cfg session alert_type now p =
    let (confirmed, p') = condition_confirmed cfg session alert_type p in
    if confirmed then should_emit_alert cfg session alert_type now p' else (false, p')

unfoldable pub observe : Settings → Text → Text → Bool → ℕ → Policy → Bool × Policy
unfolding confirm_and_emit clear_alert reset_streak
observe cfg session alert_type holds now p =
    if holds
    then confirm_and_emit cfg session alert_type now p
    else (false, clear_alert session alert_type (reset_streak session alert_type p))
