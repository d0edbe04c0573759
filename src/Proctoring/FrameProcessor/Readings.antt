-- ===== src/Proctoring/FrameProcessor/Readings.antt =====
-- A frame passes four conditions through the gates: the two kinds of objects, nobody in the picture, and
-- more than one person.
use voxenta_agentic_ai.Prelude.{
  ℕ, ◌≡◌, Bool, List, [], ◌∷◌, map, Text, text_eq, get, is_some, ltb, eqb, if◌then◌else◌, arith,
  append-nil,
}
use mathlib.Core.List.{map-append}
use voxenta_agentic_ai.Proctoring.Session.{Event}
use voxenta_agentic_ai.Proctoring.AlertPolicy.{Settings, Policy, phone_detected, prohibited_object}
use voxenta_agentic_ai.Proctoring.AlertPolicy.Gate.{observe}
use voxenta_agentic_ai.Proctoring.AlertPolicy.Runs.{Reading, after}
use voxenta_agentic_ai.Proctoring.FrameProcessor.{
  Detection, Tally, tally, person_missing, multiple_persons, missing_event, multiple_event,
  object_gate, object_gates, person_gate, frame_events,
}

abbrev pub type_of : Event → Text
type_of e = e.event_type

-- The alert types that go out over a list of readings.
unfoldable pub fired : Settings → List Reading → Policy → List Text
fired cfg [] p = []
fired cfg (r ∷ rs) p =
    let (emit, p') = observe cfg r.session r.alert_type r.holds r.now p in
    let rest = fired cfg rs p' in if emit then r.alert_type ∷ rest else rest

abbrev pub reading : Text → (Text → ℕ) → Text → Bool → Reading
reading session clock t holds = record {
  session = session;
  alert_type = t;
  holds = holds;
  now = clock t;
}

-- What a frame says of each alert type.
abbrev pub frame_readings : Settings → Text → (Text → ℕ) → List Detection → List Reading
frame_readings cfg session clock ds =
    let t = tally cfg ds in
    reading session clock phone_detected (is_some (get t.object_candidates phone_detected))
    ∷ reading session clock prohibited_object (is_some (get t.object_candidates prohibited_object))
    ∷ reading session clock person_missing (eqb t.person_count 0)
    ∷ reading session clock multiple_persons (ltb 1 t.person_count)
    ∷ []

module _ (cfg : Settings) (session : Text) (clock : Text → ℕ) where
  object_gate-observe :
      (t : Tally) (a : Text) (p : Policy)
      → let o = observe cfg session a (is_some (get t.object_candidates a)) (clock a) p in
        ((object_gate cfg session clock t a p).1 ≡ o.1)
        × (map type_of (object_gate cfg session clock t a p).0 ≡ (if o.0 then a ∷ [] else []))
  unfolding object_gate observe
  object_gate-observe t a p = ground arith

  person_gate-observe :
      (holds : Bool) (e : Event) (p : Policy)
      → let o = observe cfg session e.event_type holds (clock e.event_type) p in
        ((person_gate cfg session clock holds e p).1 ≡ o.1)
        × (map type_of (person_gate cfg session clock holds e p).0
            ≡ (if o.0 then e.event_type ∷ [] else []))
  unfolding person_gate observe
  person_gate-observe holds e p = ground arith

  -- A frame moves the policy exactly as its four readings do, and sends an event for each reading that
  -- fires, in that order, and no other.
  pub frame_events-readings :
      (ds : List Detection) (p : Policy)
      → ((frame_events cfg session clock ds p).1
          ≡ after cfg (frame_readings cfg session clock ds) p)
        × (map type_of (frame_events cfg session clock ds p).0
            ≡ fired cfg (frame_readings cfg session clock ds) p)
  unfolding frame_events object_gates after fired
  frame_events-readings ds p =
      let t = tally cfg ds in
      let g₁ = object_gate cfg session clock t phone_detected p in
      let g₂ = object_gate cfg session clock t prohibited_object g₁.1 in
      let g₃ = person_gate cfg session clock (eqb t.person_count 0) missing_event g₂.1 in
      simp (map-append, append-nil)
        (ground (
          arith,
          object_gate-observe t phone_detected p,
          object_gate-observe t prohibited_object g₁.1,
          person_gate-observe (eqb t.person_count 0) missing_event g₂.1,
          person_gate-observe (ltb 1 t.person_count) (multiple_event t.person_count) g₃.1,
        ))
