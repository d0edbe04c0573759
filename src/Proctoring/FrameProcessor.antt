-- ===== src/Proctoring/FrameProcessor.antt =====
-- src/infra/webrtc/proctoring_frame_processor.py: what one processed frame does. The detections of the
-- model are an argument (`none` where the call of the model raises), and so is what the clock reads
-- when an alert type passes the gates. Confidences are in millionths.
pub mod Best
pub mod Readings
pub mod Stream
use voxenta_agentic_ai.Prelude.{
  ℕ, ◌+◌, ◌%◌, ◌≡◌, Bool, true, false, not, Option, none, some, List, [], ◌∷◌, ◌++◌, Text, text_eq,
  Dict, get, put, mem, is_empty, codes, ◌==◌, ltb, leb, eqb, if◌then◌else◌,
}
use voxenta_agentic_ai.Proctoring.AlertPolicy.{
  Settings, Policy, object_alert_type, object_alert_types, clear_alert, reset_streak,
}
use voxenta_agentic_ai.Proctoring.AlertPolicy.Gate.{confirm_and_emit, observe}
use voxenta_agentic_ai.Proctoring.AlertPolicy.Schedule.{PushedAlert, schedule_alert}
use voxenta_agentic_ai.Proctoring.Session.{Event, Registry, broadcast_event}

pub record Detection : Type 0 where
  pub label : Text
  pub confidence : ℕ

abbrev pub person : Text
person = codes "person"

abbrev pub watched_objects : List Text
watched_objects =
    codes "cell phone" ∷ codes "book" ∷ codes "laptop" ∷ codes "keyboard" ∷ codes "mouse" ∷ []

abbrev pub person_missing : Text
person_missing = codes "PERSON_MISSING"

abbrev pub multiple_persons : Text
multiple_persons = codes "MULTIPLE_PERSONS"

abbrev pub person_confidence : ℕ
person_confidence = 900_000

pub record Tally : Type 0 where
  pub person_count : ℕ
  pub object_candidates : Dict Text (Text × ℕ)

-- The candidate of a type stays unless the new detection is more confident.
unfoldable pub offer_candidate : Text → Detection → Tally → Tally
offer_candidate alert_type d t =
    let taken = record t {
      object_candidates = put t.object_candidates alert_type (d.label, d.confidence);
    } in
    elim (get t.object_candidates alert_type) [
      | none ↦ taken
      | some current ↦ if ltb current.1 d.confidence then taken else t
    ]

unfoldable pub is_person_label : Text → Bool
is_person_label label = label == person

unfoldable pub is_watched : Text → Bool
unfolding mem
is_watched label = mem watched_objects label

-- One turn of the loop over the boxes.
unfoldable pub count_detection : Settings → Detection → Tally → Tally
count_detection cfg d t =
    if ltb d.confidence cfg.yolo_confidence
    then t
    else if is_person_label d.label
    then record t { person_count = t.person_count + 1 }
    else if not (is_watched d.label)
    then t
    else if is_empty (object_alert_type d.label)
    then t
    else offer_candidate (object_alert_type d.label) d t

unfoldable pub tally_from : Settings → List Detection → Tally → Tally
tally_from cfg [] t = t
tally_from cfg (d ∷ ds) t = tally_from cfg ds (count_detection cfg d t)

unfoldable pub tally : Settings → List Detection → Tally
unfolding tally_from
tally cfg ds = tally_from cfg ds (record { person_count = 0; object_candidates = [] })

-- One round of the loop over `OBJECT_ALERT_TYPES`.
unfoldable pub object_gate :
    Settings → Text → (Text → ℕ) → Tally → Text → Policy → List Event × Policy
object_gate cfg session clock t alert_type p = elim (get t.object_candidates alert_type) [
  | none ↦ ([], clear_alert session alert_type (reset_streak session alert_type p))
  | some (label, confidence) ↦
      let (fired, p') = confirm_and_emit cfg session alert_type (clock alert_type) p in
      (
        if fired
            then record {
              event_type = alert_type;
              message = codes "Phát hiện vật thể nghi vấn: " ++ label;
              confidence = confidence;
              object = some label;
              person_count = none;
            }
              ∷ []
            else [],
        p',
      )
]

-- The part for people: the condition, and the event where an alert goes out.
unfoldable pub person_gate :
    Settings → Text → (Text → ℕ) → Bool → Event → Policy → List Event × Policy
person_gate cfg session clock holds e p =
    if holds
    then (let (fired, p') = confirm_and_emit cfg session e.event_type (clock e.event_type) p in
        (if fired then e ∷ [] else [], p'))
    else ([], clear_alert session e.event_type (reset_streak session e.event_type p))

abbrev pub missing_event : Event
missing_event = record {
  event_type = person_missing;
  message = codes "Không thấy người trong camera";
  confidence = person_confidence;
  object = none;
  person_count = none;
}

abbrev pub multiple_event : ℕ → Event
multiple_event count = record {
  event_type = multiple_persons;
  message = codes "Phát hiện nhiều hơn một người trong camera";
  confidence = person_confidence;
  object = none;
  person_count = some count;
}

unfoldable pub object_gates :
    Settings → Text → (Text → ℕ) → Tally → List Text → Policy → List Event × Policy
object_gates cfg session clock t [] p = ([], p)
object_gates cfg session clock t (a ∷ as') p =
    let (here, p') = object_gate cfg session clock t a p in
    let (rest, p'') = object_gates cfg session clock t as' p' in (here ++ rest, p'')

-- The events of a frame, in order, and the policy after it.
unfoldable pub frame_events :
    Settings → Text → (Text → ℕ) → List Detection → Policy → List Event × Policy
frame_events cfg session clock ds p =
    let t = tally cfg ds in
    let (objects, p') = object_gates cfg session clock t object_alert_types p in
    let (missing, p'') = person_gate cfg session clock (eqb t.person_count 0) missing_event p' in
    let (multiple, p''') =
      person_gate cfg session clock (ltb 1 t.person_count) (multiple_event t.person_count) p'' in
    (objects ++ missing ++ multiple, p''')

-- The state of `process_video_track` for one session.
pub record Track : Type 0 where
  pub frame_count : ℕ
  pub registry : Registry
  pub policy : Policy
  pub pushed : List PushedAlert

-- The last loop of a frame: each event is stored, sent to the subscribers and pushed.
unfoldable pub publish_events : Text → List Event → Track → Track
publish_events session [] k = k
publish_events session (e ∷ es) k =
    let r = broadcast_event session e k.registry in
    publish_events session es (record k {
      registry = r;
      pushed = elim (schedule_alert session e r) [ none ↦ k.pushed | some a ↦ k.pushed ++ a ∷ [] ];
    })

-- One received frame. Only every `yolo_frame_skip`-th is processed.
unfoldable pub process_frame :
    Settings → Text → (Text → ℕ) → Option (List Detection) → Track → Track
process_frame cfg session clock results k =
    let k' = record k { frame_count = k.frame_count + 1 } in
    if not (eqb (k'.frame_count % cfg.yolo_frame_skip) 0) then k' else elim results [
      | none ↦ k'
      | some ds ↦
          let (events, p) = frame_events cfg session clock ds k.policy in
          publish_events session events (record k' { policy = p })
    ]
