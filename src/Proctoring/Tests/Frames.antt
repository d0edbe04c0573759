-- ===== src/Proctoring/Tests/Frames.antt =====
-- Frames with concrete detections.
use voxenta_agentic_ai.Prelude.{ℕ, ◌≡◌, refl, List, [], ◌∷◌, Text, text_eq, codes, get, put, String}
use voxenta_agentic_ai.Proctoring.AlertPolicy.{
  Settings, fresh, prohibited_object, object_alert_type,
}
use voxenta_agentic_ai.Proctoring.AlertPolicy.Runs.Cadence.{Spaced}
use voxenta_agentic_ai.Proctoring.FrameProcessor.{
  Detection, tally, tally_from, count_detection, is_person_label, is_watched, offer_candidate,
  person_missing,
}
use voxenta_agentic_ai.Proctoring.FrameProcessor.Stream.{
  Frame, event_times, Deserted, person_missing-Spaced,
}

abbrev cfg : Settings
cfg = record {
  alert_cooldown = 5000;
  alert_streak_frames = 2;
  yolo_frame_skip = 10;
  yolo_confidence = 500_000;
  max_connections = 2;
}

abbrev anna : Text
anna = codes "anna"

abbrev seen : String → ℕ → Detection
seen label confidence = record { label = codes label; confidence = confidence }

-- A book and a laptop are one kind; the keyboard and the doubtful phone are not reported.
abbrev desk : List Detection
desk =
    seen "book" 600_000
    ∷ seen "keyboard" 900_000
    ∷ seen "laptop" 800_000
    ∷ seen "cell phone" 400_000
    ∷ []

desk-tally : tally cfg desk ≡ record {
  person_count = 0;
  object_candidates = (prohibited_object, (codes "laptop", 800_000)) ∷ [];
}
unfolding tally tally_from count_detection is_person_label is_watched offer_candidate
    object_alert_type get put
desk-tally = refl

abbrev at : ℕ → Text → ℕ
at now t = now

abbrev frames : List Frame
frames = (at 0, desk) ∷ (at 400, []) ∷ (at 800, desk) ∷ (at 5400, desk) ∷ []

frames-Deserted : Deserted cfg frames
unfolding tally tally_from count_detection is_person_label is_watched offer_candidate
    object_alert_type get put
frames-Deserted = (refl, (refl, (refl, (refl, tt))))

person_missing-Spaced_example : Spaced 5000 (event_times cfg anna person_missing frames fresh)
person_missing-Spaced_example = person_missing-Spaced cfg anna frames fresh frames-Deserted
