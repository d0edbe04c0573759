-- ===== src/Proctoring/AlertPolicy/Schedule.antt =====
-- `schedule_alert` of src/infra/webrtc/proctoring_alert_policy.py: the arguments with which an event is
-- handed to `push_alert`. It runs inside the event loop, so a running loop is there.
use voxenta_agentic_ai.Prelude.{ℕ, Option, none, some, Text, or_text, is_empty, eqb, if◌then◌else◌}
use voxenta_agentic_ai.Proctoring.Session.{Event, Registry, get_identity}

-- The request that src/infra/alert_client.py sends.
pub record PushedAlert : Type 0 where
  pub session_id : Text
  pub participant_id : Text
  pub stream_id : Text
  pub alert_type : Text
  pub confidence : ℕ
  pub stream_type : Text
  pub detail : Text

-- Confidences are in millionths: this is 1.0.
abbrev pub full_confidence : ℕ
full_confidence = 1_000_000

unfoldable pub map_alert_type : Event → Text
map_alert_type e = e.event_type

unfoldable pub schedule_alert : Text → Event → Registry → Option PushedAlert
unfolding map_alert_type get_identity
schedule_alert session e r =
    let identity = get_identity session r in
    if is_empty (map_alert_type e)
    then none
    else some (record {
      session_id = or_text identity.exam_session_id session;
      participant_id = identity.participant_id;
      stream_id = identity.stream_id;
      alert_type = map_alert_type e;
      confidence = if eqb e.confidence 0 then full_confidence else e.confidence;
      stream_type = identity.stream_type;
      detail = e.message;
    })
