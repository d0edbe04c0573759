-- ===== src/Proctoring/FrameProcessor/Stream.antt =====
-- The alerts over a stream of processed frames of one session.
use voxenta_agentic_ai.Prelude.{
  ℕ, ◌≡◌, refl, List, [], ◌∷◌, ◌++◌, map, Text, text_eq, if◌then◌else◌, arith, All, eq_refl, ◌==◌,
}
use voxenta_agentic_ai.Proctoring.AlertPolicy.{Settings, Policy}
use voxenta_agentic_ai.Proctoring.AlertPolicy.Gate.{observe}
use voxenta_agentic_ai.Proctoring.AlertPolicy.Runs.{Reading, samples, after, alerts_at}
use voxenta_agentic_ai.Proctoring.AlertPolicy.Runs.Cadence.{Holding, Spaced, alerts_at-Spaced}
use voxenta_agentic_ai.Proctoring.FrameProcessor.{Detection, tally, person_missing, frame_events}
use voxenta_agentic_ai.Proctoring.FrameProcessor.Readings.{
  type_of, fired, frame_readings, frame_events-readings,
}

-- A processed frame: what the clock reads for each alert type, and the detections.
abbrev pub Frame : Type 0
Frame = (Text → ℕ) × List Detection

-- The time of each event of type `t` among the types of a frame's events.
unfoldable pub times_of : (Text → ℕ) → Text → List Text → List ℕ
times_of clock t [] = []
times_of clock t (a ∷ as') =
    let rest = times_of clock t as' in if a == t then clock t ∷ rest else rest

-- The times at which events of one type go out over the frames.
unfoldable pub event_times : Settings → Text → Text → List Frame → Policy → List ℕ
event_times cfg session t [] p = []
event_times cfg session t ((clock, ds) ∷ fs) p =
    let (es, p') = frame_events cfg session clock ds p in
    times_of clock t (map type_of es) ++ event_times cfg session t fs p'

unfoldable pub stream_readings : Settings → Text → List Frame → List Reading
stream_readings cfg session [] = []
stream_readings cfg session ((clock, ds) ∷ fs) =
    frame_readings cfg session clock ds ++ stream_readings cfg session fs

-- The readings are those of one session, taken at the clock's times.
abbrev OfFrame : Text → (Text → ℕ) → List Reading → Type 0
OfFrame session clock rs = All (λ r. (r.session ≡ session) × (r.now ≡ clock r.alert_type)) rs

module _ (cfg : Settings) (session t : Text) where
  alerts_at-append :
      (clock : Text → ℕ) (rs rest : List Reading) (p : Policy)
      → OfFrame session clock rs
      → alerts_at cfg session t (rs ++ rest) p
        ≡ times_of clock t (fired cfg rs p) ++ alerts_at cfg session t rest (after cfg rs p)
  unfolding alerts_at times_of fired after
  alerts_at-append clock [] rest p h = refl
  alerts_at-append clock (r ∷ rs) rest p h = ground (
    arith,
    alerts_at-append clock rs rest (observe cfg r.session r.alert_type r.holds r.now p).1 h.1,
    eq_refl session,
    text_eq.beq_iff r.alert_type t,
  )

  event_times-eq-alerts_at :
      (fs : List Frame) (p : Policy)
      → event_times cfg session t fs p ≡ alerts_at cfg session t (stream_readings cfg session fs) p
  unfolding event_times stream_readings alerts_at
  event_times-eq-alerts_at [] p = refl
  event_times-eq-alerts_at ((clock, ds) ∷ fs) p = cc (
    alerts_at-append clock (frame_readings cfg session clock ds) (stream_readings cfg session fs) p
        ((refl, refl), ((refl, refl), ((refl, refl), ((refl, refl), tt)))),
    (frame_events-readings cfg session clock ds p).0,
    (frame_events-readings cfg session clock ds p).1,
    event_times-eq-alerts_at fs (frame_events cfg session clock ds p).1,
  )

-- Nobody is seen in any of the frames.
abbrev pub Deserted : Settings → List Frame → Type 0
Deserted cfg fs = All (λ f. (tally cfg f.1).person_count ≡ 0) fs

samples-Deserted :
    (cfg : Settings) (session : Text) (fs : List Frame)
    → Deserted cfg fs
    → Holding (samples session person_missing (stream_readings cfg session fs))
unfolding stream_readings samples
samples-Deserted cfg session [] h = tt
samples-Deserted cfg session ((clock, ds) ∷ fs) h =
    ground (arith, eq_refl session, samples-Deserted cfg session fs h.1)

-- While nobody is seen, the `PERSON_MISSING` events of a session are at least a cooldown apart, from
-- any state of the policy, whatever objects the frames show.
pub person_missing-Spaced :
    (cfg : Settings) (session : Text) (fs : List Frame) (p : Policy)
    → Deserted cfg fs
    → Spaced cfg.alert_cooldown (event_times cfg session person_missing fs p)
person_missing-Spaced cfg session fs p h = rw event_times-eq-alerts_at (
    alerts_at-Spaced cfg session person_missing (stream_readings cfg session fs) p
      (samples-Deserted cfg session fs h))
