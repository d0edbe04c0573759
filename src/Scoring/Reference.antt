-- ===== src/Scoring/Reference.antt =====
-- How far a model's three rewrites of a transcript can serve as its reference
-- (`compute_reference_confidence` of src/utils/confidence_utils.py). Exact fractions stand for floats.
pub mod Agreement
pub mod Stability
use voxenta_agentic_ai.Prelude.{
  ℕ, ◌+◌, ◌-◌, ◌*◌, min, Bool, Option, none, some, List, [], ◌∷◌, map, Text, is_empty, not, keep_if,
  strip, split, ltb, if◌then◌else◌,
}
use voxenta_agentic_ai.Realtime.Transcript.{Fraction}
use voxenta_agentic_ai.Speech.WordErrors.{Unicode, normalize_for_wer, word_error_rate}

unfoldable pub plus : Fraction → Fraction → Fraction
plus f g = record {
  numerator = f.numerator * g.denominator + g.numerator * f.denominator;
  denominator = f.denominator * g.denominator;
}

unfoldable pub over : ℕ → Fraction → Fraction
over n f = record { numerator = f.numerator; denominator = f.denominator * n }

-- `clip_unit(1.0 - f)`, for a fraction that is not negative
unfoldable pub clip_from_one : Fraction → Fraction
clip_from_one f = record { numerator = f.denominator - f.numerator; denominator = f.denominator }

-- `f < g`
unfoldable pub less : Fraction → Fraction → Bool
less f g = ltb (f.numerator * g.denominator) (g.numerator * f.denominator)

unfoldable pub both_ways : Option Fraction → Option Fraction → Option Fraction
unfolding plus over clip_from_one
both_ways none reverse = none
both_ways (some forward) none = none
both_ways (some forward) (some reverse) = some (clip_from_one (over 2 (plus forward reverse)))

unfoldable pub symmetric_similarity : List Text → List Text → Option Fraction
unfolding both_ways word_error_rate
symmetric_similarity left right =
    both_ways (word_error_rate left right) (word_error_rate right left)

pub record ReferenceConfidence : Type 0 where
  pub reference : Text
  pub confidence : Option Fraction
  pub stability : Option Fraction
  pub drift : Option Fraction

abbrev pub without : Text → ReferenceConfidence
without reference = record {
  reference = reference;
  confidence = none;
  stability = none;
  drift = none;
}

-- The first of the three with the greatest sum.
unfoldable pub medoid : {A : Type 0} → A × Fraction → A × Fraction → A × Fraction → A
unfolding less
medoid (a, f) (b, g) (c, h) =
    let (d, best) = if less f g then (b, g) else (a, f) in if less best h then c else d

-- What follows from the reference that was chosen, and the word errors of the transcript against it.
unfoldable pub drifted : Text → Fraction → Option Fraction → ReferenceConfidence
unfolding clip_from_one less
drifted reference stability none = record {
  reference = reference;
  confidence = none;
  stability = some stability;
  drift = none;
}
drifted reference stability (some drift) =
    let kept = clip_from_one drift in
    record {
      reference = reference;
      confidence = some (if less kept stability then kept else stability);
      stability = some stability;
      drift = some drift;
    }

abbrev pub words : Unicode → Text → List Text
words unicode text = split (normalize_for_wer unicode text)

-- Three references, of similarities that are all defined.
unfoldable pub compare_three :
    Unicode → Text → Text → Text → Text → Fraction → Fraction → Fraction → ReferenceConfidence
unfolding plus over medoid drifted
compare_three unicode raw a b c ab ac bc =
    let chosen = medoid (a, plus ab ac) (b, plus ab bc) (c, plus ac bc) in
    drifted chosen (over 3 (plus (plus ab ac) bc))
      (word_error_rate (words unicode raw) (words unicode chosen))

-- `without` unless all three similarities are there.
unfoldable pub compare :
    Unicode
    → Text
    → Text
    → Text
    → Text
    → Option Fraction
    → Option Fraction
    → Option Fraction
    → ReferenceConfidence
unfolding compare_three
compare unicode raw a b c none ac bc = without a
compare unicode raw a b c (some ab) none bc = without a
compare unicode raw a b c (some ab) (some ac) none = without a
compare unicode raw a b c (some ab) (some ac) (some bc) = compare_three unicode raw a b c ab ac bc

unfoldable pub among_three : Unicode → Text → Text → Text → Text → ReferenceConfidence
unfolding symmetric_similarity compare
among_three unicode raw a b c =
    let similarity : Text → Text → Option Fraction =
      λ s t. symmetric_similarity (words unicode s) (words unicode t) in
    compare unicode raw a b c (similarity a b) (similarity a c) (similarity b c)

unfoldable pub usable : List Text → List Text
unfolding strip
usable references = keep_if (λ s. not (is_empty s)) (map strip references)

unfoldable pub among : Unicode → Text → List Text → ReferenceConfidence
unfolding among_three
among unicode raw [] = without raw
among unicode raw (a ∷ []) = without a
among unicode raw (a ∷ b ∷ []) = without a
among unicode raw (a ∷ b ∷ c ∷ []) = among_three unicode raw a b c
among unicode raw (a ∷ b ∷ c ∷ d ∷ more) = without a

unfoldable pub compute_reference_confidence : Unicode → Text → List Text → ReferenceConfidence
unfolding usable among
compute_reference_confidence unicode raw references = among unicode raw (usable references)

-- `quality_from_snr`, of a ratio in millionths of a decibel; a negative one gives 0 as 0 does.
unfoldable pub quality_from_snr : Option ℕ → Option Fraction
quality_from_snr none = none
quality_from_snr (some snr_db) =
    some (record { numerator = min (snr_db - 5000000) 5000000; denominator = 5000000 })

-- `quality_from_speech_ratio`, of a ratio in millionths
unfoldable pub quality_from_speech_ratio : Option ℕ → Option Fraction
quality_from_speech_ratio none = none
quality_from_speech_ratio (some silence_ratio) =
    some
      (record { numerator = min ((1000000 - silence_ratio) - 200000) 200000; denominator = 200000 })
