-- ===== src/Proctoring/AlertPolicy.antt =====
-- src/infra/webrtc/proctoring_alert_policy.py: the per-session state and the two gates. The clock
-- `time.monotonic()` is an argument, in ticks; session ids and alert types are texts.
pub mod Gate
pub mod Spec
pub mod Runs
pub mod Schedule
use voxenta_agentic_ai.Prelude.{
  ℕ, ◌+◌, Bool, true, false, not, ◌||◌, Option, none, some, List, [], ◌∷◌, Text, text_eq, Dict, get,
  put, remove, mem, add, discard, get_or, leb, if◌then◌else◌, codes, is_empty, strip, lower,
}

-- The settings of config/webrtc_config.py that the proctoring code reads.
pub record Settings : Type 0 where
  pub alert_cooldown : ℕ
  pub alert_streak_frames : ℕ
  pub yolo_frame_skip : ℕ
  pub yolo_confidence : ℕ
  pub max_connections : ℕ

pub record Policy : Type 0 where
  pub active_alert_types : Dict Text (List Text)
  pub alert_last_emitted_at : Dict Text (Dict Text ℕ)
  pub condition_streak : Dict Text (Dict Text ℕ)

abbrev pub fresh : Policy
fresh = record { active_alert_types = []; alert_last_emitted_at = []; condition_streak = [] }

abbrev pub phone_detected : Text
phone_detected = codes "PHONE_DETECTED"

abbrev pub prohibited_object : Text
prohibited_object = codes "PROHIBITED_OBJECT"

abbrev pub benign_objects : List Text
benign_objects = codes "keyboard" ∷ codes "mouse" ∷ []

abbrev pub phone_objects : List Text
phone_objects = codes "cell phone" ∷ []

abbrev pub object_alert_types : List Text
object_alert_types = phone_detected ∷ prohibited_object ∷ []

-- The empty text stands for an object that is not worth a report.
unfoldable pub object_alert_type : Text → Text
unfolding strip lower mem
object_alert_type label =
    let normalized = lower (strip label) in
    if is_empty normalized || mem benign_objects normalized
    then []
    else if mem phone_objects normalized
    then phone_detected
    else prohibited_object

-- The inner containers of the `defaultdict`s.
abbrev pub active_of : Policy → Text → List Text
active_of p session = get_or (get p.active_alert_types session) []

abbrev pub emitted_of : Policy → Text → Dict Text ℕ
emitted_of p session = get_or (get p.alert_last_emitted_at session) []

abbrev pub streaks_of : Policy → Text → Dict Text ℕ
streaks_of p session = get_or (get p.condition_streak session) []

-- `alert_type not in last_emitted or now - last_emitted[alert_type] >= COOLDOWN`
unfoldable pub cooldown_elapsed : Settings → Option ℕ → ℕ → Bool
cooldown_elapsed cfg none now = true
cooldown_elapsed cfg (some last) now = leb (last + cfg.alert_cooldown) now

unfoldable pub should_emit_alert : Settings → Text → Text → ℕ → Policy → Bool × Policy
should_emit_alert cfg session alert_type now p =
    let active = active_of p session in
    let last_emitted = emitted_of p session in
    let is_new = not (mem active alert_type) in
    if not (is_new || cooldown_elapsed cfg (get last_emitted alert_type) now) then (false, p) else (
      true,
      record p {
        active_alert_types = put p.active_alert_types session (add active alert_type);
        alert_last_emitted_at =
            put p.alert_last_emitted_at session (put last_emitted alert_type now);
      },
    )

unfoldable pub clear_alert : Text → Text → Policy → Policy
clear_alert session alert_type p = record p {
  active_alert_types = put p.active_alert_types session (discard (active_of p session) alert_type);
}

unfoldable pub condition_confirmed : Settings → Text → Text → Policy → Bool × Policy
condition_confirmed cfg session alert_type p =
    let streaks = streaks_of p session in
    let count = get_or (get streaks alert_type) 0 + 1 in
    (
      leb cfg.alert_streak_frames count,
      record p { condition_streak = put p.condition_streak session (put streaks alert_type count) },
    )

unfoldable pub reset_streak : Text → Text → Policy → Policy
reset_streak session alert_type p = record p {
  condition_streak = put p.condition_streak session (put (streaks_of p session) alert_type 0);
}

unfoldable pub clear_session : Text → Policy → Policy
clear_session session p = record {
  active_alert_types = remove p.active_alert_types session;
  alert_last_emitted_at = remove p.alert_last_emitted_at session;
  condition_streak = remove p.condition_streak session;
}
