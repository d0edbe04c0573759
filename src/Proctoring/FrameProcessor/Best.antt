-- ===== src/Proctoring/FrameProcessor/Best.antt =====
-- What the loop over the boxes of a frame leaves behind.
use voxenta_agentic_ai.Prelude.{
  ℕ, ◌+◌, ◌≤◌, ◌≡◌, refl, Bool, true, false, not, ◌&&◌, Option, none, some, List, [], ◌∷◌, inl,
  Text, text_eq, get, get-put, is_empty, ◌==◌, ltb, if◌then◌else◌, arith, All, length, keep_if, ◌⊎◌,
}
use voxenta_agentic_ai.Proctoring.AlertPolicy.{Settings, object_alert_type}
use voxenta_agentic_ai.Proctoring.FrameProcessor.{
  Detection, Tally, is_person_label, is_watched, offer_candidate, count_detection, tally_from,
  tally,
}

-- A person that the model is sure enough of.
abbrev pub is_person : Settings → Detection → Bool
is_person cfg d = not (ltb d.confidence cfg.yolo_confidence) && is_person_label d.label

-- An object of an alert type that the model is sure enough of.
abbrev pub is_object : Settings → Text → Detection → Bool
is_object cfg t d =
    not (ltb d.confidence cfg.yolo_confidence)
    && not (is_person_label d.label)
    && is_watched d.label
    && not (is_empty (object_alert_type d.label))
    && object_alert_type d.label == t

-- `c` is at least as confident as every object of the type among `ds`.
abbrev pub Covers : Settings → Text → List Detection → ℕ → Type 0
Covers cfg t ds c = All (λ d. is_object cfg t d ≡ true → d.confidence ≤ c) ds

-- Among `ds` stands an object of the type with this label and confidence.
abbrev pub Holds : Settings → Text → List Detection → Text × ℕ → Type 0
Holds cfg t [] best = ⊥
Holds cfg t (d ∷ ds) best =
    ((is_object cfg t d ≡ true) × (d.label ≡ best.0) × (d.confidence ≡ best.1))
    ⊎ Holds cfg t ds best

count_person :
    (cfg : Settings) (d : Detection) (k : Tally)
    → (count_detection cfg d k).person_count
      ≡ (if is_person cfg d then k.person_count + 1 else k.person_count)
unfolding count_detection offer_candidate
count_person cfg d k = ground arith

person_count-from :
    (cfg : Settings) (ds : List Detection) (k : Tally)
    → (tally_from cfg ds k).person_count ≡ k.person_count + length (keep_if (is_person cfg) ds)
unfolding tally_from
person_count-from cfg [] k = ground arith
person_count-from cfg (d ∷ ds) k =
    ground (arith, person_count-from cfg ds (count_detection cfg d k), count_person cfg d k)

-- How one detection moves the candidate of a type.
abbrev better : Detection → Option (Text × ℕ) → Option (Text × ℕ)
better d none = some (d.label, d.confidence)
better d (some best) = if ltb best.1 d.confidence then some (d.label, d.confidence) else some best

get-offer_candidate :
    (a t : Text) (d : Detection) (k : Tally)
    → get (offer_candidate a d k).object_candidates t
      ≡ (if a == t then better d (get k.object_candidates t) else get k.object_candidates t)
unfolding offer_candidate
get-offer_candidate a t d k =
    ground (arith, get-put k.object_candidates a t (d.label, d.confidence), text_eq.beq_iff a t)

get-count_detection :
    (cfg : Settings) (t : Text) (d : Detection) (k : Tally)
    → get (count_detection cfg d k).object_candidates t ≡ (
        if is_object cfg t d
        then better d (get k.object_candidates t)
        else get k.object_candidates t)
unfolding count_detection
get-count_detection cfg t d k =
    ground (arith, get-offer_candidate (object_alert_type d.label) t d k)

-- The candidate of a type, from a start that is a candidate of nothing or of something.
abbrev pub BestOf : Settings → Text → List Detection → Option (Text × ℕ) → Type 0
BestOf cfg t ds none = All (λ d. is_object cfg t d ≡ false) ds
BestOf cfg t ds (some best) = Holds cfg t ds best × Covers cfg t ds best.1

abbrev BestFrom : Settings → Text → List Detection → Option (Text × ℕ) → Option (Text × ℕ) → Type 0
BestFrom cfg t ds none r = BestOf cfg t ds r
BestFrom cfg t ds (some b) none = ⊥
BestFrom cfg t ds (some b) (some c) =
    ((c ≡ b) ⊎ Holds cfg t ds c) × (b.1 ≤ c.1) × Covers cfg t ds c.1

BestFrom-step :
    (cfg : Settings) (t : Text) (d : Detection) (ds : List Detection) (o r : Option (Text × ℕ))
    → BestFrom cfg t ds (if is_object cfg t d then better d o else o) r
    → BestFrom cfg t (d ∷ ds) o r
BestFrom-step cfg t d ds none none h = ground arith
BestFrom-step cfg t d ds none (some c) h = ground arith
BestFrom-step cfg t d ds (some b) none h = ground arith
BestFrom-step cfg t d ds (some b) (some c) h = ground arith

candidate-from :
    (cfg : Settings) (t : Text) (ds : List Detection) (k : Tally)
    → BestFrom cfg t ds (get k.object_candidates t) (get (tally_from cfg ds k).object_candidates t)
unfolding tally_from
candidate-from cfg t [] k = start (get k.object_candidates t)
  where
    start : (o : Option (Text × ℕ)) → BestFrom cfg t [] o o
    start none = tt
    start (some b) = (inl refl, omega arith, tt)
candidate-from cfg t (d ∷ ds) k =
    BestFrom-step cfg t d ds (get k.object_candidates t) _
      (rw get-count_detection at (candidate-from cfg t ds (count_detection cfg d k)))

-- After the loop over the boxes the count of people is the number of confident detections of a
-- person, and the candidate of an alert type is a most confident one of the confident detections of its
-- objects: there is none exactly where there is no such detection.
pub tally_lem :
    (cfg : Settings) (ds : List Detection) (alert_type : Text)
    → ((tally cfg ds).person_count ≡ length (keep_if (is_person cfg) ds))
      × BestOf cfg alert_type ds (get (tally cfg ds).object_candidates alert_type)
unfolding tally get
tally_lem cfg ds t = (
  omega (arith, person_count-from cfg ds (record { person_count = 0; object_candidates = [] })),
  candidate-from cfg t ds (record { person_count = 0; object_candidates = [] }),
)
