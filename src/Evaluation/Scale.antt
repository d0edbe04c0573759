-- ===== src/Evaluation/Scale.antt =====
-- src/node/evalGraph/AzureScoreScaleNode/azure_score_scale_node_config.py: scores from 0 to 100 on the scale of a
-- rubric. Scores are in hundredths; the notes of the framework are left out.
pub mod Range
use voxenta_agentic_ai.Prelude.{
  ℕ, ◌+◌, ◌-◌, ◌*◌, min, max, Bool, true, false, Option, none, some, List, [], ◌∷◌, find?, Text,
  text_eq, ◌==◌, codes, leb, get_or, if◌then◌else◌, ◌++◌,
}

-- `round(n / d, 2)`, for the quotient in hundredths
abbrev pub Rounding : Type 0
Rounding = ℕ → ℕ → ℕ

-- What a scaled score comes to; `bad_range` is the ValueError.
pub data Scaled : Type 0 where
  no_score : Scaled
  scaled : ℕ → Scaled
  bad_range : Scaled

unfoldable pub scale_number : Rounding → ℕ → ℕ → ℕ → ℕ
scale_number round azure low high =
    let bounded = min 10000 azure in
    let exact = low * 10000 + bounded * (high - low) in
    round (min (high * 10000) (max (low * 10000) exact)) 10000

unfoldable pub scale_hundred_mark_score : Rounding → Option ℕ → ℕ → ℕ → Scaled
unfolding scale_number
scale_hundred_mark_score round none low high = no_score
scale_hundred_mark_score round (some azure) low high =
    if leb high low then bad_range else scaled (scale_number round azure low high)

pub record CriterionFramework : Type 0 where
  pub criterion_key : Text
  pub rubric_min_score : ℕ
  pub rubric_max_score : ℕ

-- `framework.criterion_key == criterion_key`, the first of them
unfoldable pub find_framework : List CriterionFramework → Text → Option CriterionFramework
find_framework frameworks key = find? (λ f. f.criterion_key == key) frameworks

pub record Criterion : Type 0 where
  pub score : Option ℕ
  pub source : Text
  pub status : Text
  pub raw_azure_score : Option ℕ

pub record ScalingDetails : Type 0 where
  pub raw_score : Option ℕ
  pub rubric_score : ℕ
  pub rubric_min : ℕ
  pub rubric_max : ℕ

-- A criterion after scaling, with the details if it was scaled; `none` is the ValueError.
unfoldable pub apply_scaled :
    Criterion → CriterionFramework → Scaled → Option (Criterion × Option ScalingDetails)
apply_scaled c f no_score = some (c, none)
apply_scaled c f bad_range = none
apply_scaled c f (scaled score) = some (
  record c {
    score = some score;
    source = codes "azure";
    status = codes "scored";
    raw_azure_score = c.score;
  },
  some (record {
    raw_score = c.score;
    rubric_score = score;
    rubric_min = f.rubric_min_score;
    rubric_max = f.rubric_max_score;
  }),
)

unfoldable pub scale_with :
    Rounding → Criterion → Option CriterionFramework → Option (Criterion × Option ScalingDetails)
unfolding apply_scaled scale_hundred_mark_score
scale_with round c none = some (c, none)
scale_with round c (some f) =
    apply_scaled c f (scale_hundred_mark_score round c.score f.rubric_min_score f.rubric_max_score)

unfoldable pub scale_criterion :
    Rounding
    → List CriterionFramework
    → Text
    → Criterion
    → Option (Criterion × Option ScalingDetails)
unfolding scale_with find_framework
scale_criterion round frameworks key c = scale_with round c (find_framework frameworks key)

-- The two criteria that come from Azure
pub record Spoken : Type 0 where
  pub pronunciation : Criterion
  pub fluency : Criterion

-- The result, which is changed in place, and the details or the error
pub record ScaleResult : Type 0 where
  pub result : Option Spoken
  pub details : Option (List (Text × ScalingDetails))
  pub error : Bool

abbrev pub entry : Text → Option ScalingDetails → List (Text × ScalingDetails)
entry key none = []
entry key (some d) = (key, d) ∷ []

-- The second step. An error here leaves the change of the first.
unfoldable pub scale_fluency :
    Rounding → List CriterionFramework → Spoken → List (Text × ScalingDetails) → ScaleResult
unfolding scale_criterion
scale_fluency round frameworks spoken details =
    elim (scale_criterion round frameworks (codes "fluency") spoken.fluency) [
      | none ↦ record { result = some spoken; details = none; error = true }
      | some (c, d) ↦ record {
        result = some (record spoken { fluency = c });
        details = some (details ++ entry (codes "fluency") d);
        error = false;
      }
    ]

unfoldable pub scale_both : Rounding → List CriterionFramework → Spoken → ScaleResult
unfolding scale_criterion scale_fluency
scale_both round frameworks spoken =
    elim (scale_criterion round frameworks (codes "pronunciation") spoken.pronunciation) [
      | none ↦ record { result = some spoken; details = none; error = true }
      | some (c, d) ↦
          scale_fluency round frameworks (record spoken { pronunciation = c })
            (entry (codes "pronunciation") d)
    ]

-- The frameworks of the input if there is one, and the result of the pronunciation if there is one
unfoldable pub azure_score_scale_node :
    Rounding → Option (List CriterionFramework) → Option Spoken → ScaleResult
unfolding scale_both
azure_score_scale_node round none spoken = record { result = spoken; details = none; error = true }
azure_score_scale_node round (some frameworks) none = record {
  result = none;
  details = none;
  error = true;
}
azure_score_scale_node round (some frameworks) (some spoken) = scale_both round frameworks spoken
