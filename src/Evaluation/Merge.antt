-- ===== src/Evaluation/Merge.antt =====
-- src/node/evalGraph/MergeScoresNode/merge_scores_node_config.py: the node where the branches meet. A criterion
-- is of any type, since the node only passes it on.
pub mod Outcome
use voxenta_agentic_ai.Prelude.{
  ℕ, ◌≡◌, ◌∙◌, refl, sym, ap, Bool, true, false, not, ◌&&◌, ◌||◌, Option, none, some, List, [], ◌∷◌,
  ◌++◌, any, keep_if, map, Text, text_eq, ◌==◌, codes, mem, get_or, is_empty, is_some,
  if◌then◌else◌, Bool-cases, Option-cases, inl, inr, arith,
}

-- What the branches wrote to the metadata; a message that is missing is the empty one.
pub record BranchErrors : Type 0 where
  pub pronunciation_error : Text
  pub azure_score_scale_error : Text
  pub answer_length_error : Text
  pub language_quality_error : Text

-- The part of `FormattedPronunciationResult` that the node changes.
pub record Result {ℓ} (Criterion : Type ℓ) : Type ℓ where
  pub coherence : Option Criterion
  pub vocabulary : Option Criterion
  pub grammar : Option Criterion
  pub notes : List Text

pub record MergeState {ℓ} (Criterion : Type ℓ) : Type ℓ where
  pub branch_errors : BranchErrors
  pub audio_path : Option Text
  pub pronunciation_result : Option (Result Criterion)
  pub coherence_criterion : Option Criterion
  pub lexical_criterion : Option Criterion
  pub grammar_criterion : Option Criterion

pub data Merged {ℓ} (Criterion : Type ℓ) : Type ℓ where
  completed : Result Criterion → Merged Criterion
  failed : (combined : Text) → Merged Criterion

abbrev pub not_assessed_note : Text
not_assessed_note =
    codes
      "Không chấm phát âm cho lượt này: không thu được bản ghi âm. Ngữ pháp, từ vựng và mạch lạc vẫn được chấm từ bản ghi lời nói."

-- `{key: metadata[key] for key in _BRANCH_ERROR_KEYS if metadata.get(key)}`, in the order of the keys
unfoldable pub branch_errors : BranchErrors → List (Text × Text)
branch_errors e =
    keep_if (λ p. not (is_empty p.1))
      ((codes "pronunciation_error", e.pronunciation_error)
        ∷ (codes "azure_score_scale_error", e.azure_score_scale_error)
        ∷ (codes "answer_length_error", e.answer_length_error)
        ∷ (codes "language_quality_error", e.language_quality_error)
        ∷ [])

abbrev pub pronunciation_error_keys : List Text
pronunciation_error_keys = codes "pronunciation_error" ∷ codes "azure_score_scale_error" ∷ []

-- The errors without those of the branch of the pronunciation
unfoldable pub drop_pronunciation : List (Text × Text) → List (Text × Text)
unfolding mem
drop_pronunciation errors = keep_if (λ p. not (mem pronunciation_error_keys p.0)) errors

-- `setdefault`
unfoldable pub set_default : Text → Text → List (Text × Text) → List (Text × Text)
set_default key message errors =
    if any (λ p. p.0 == key) errors then errors else errors ++ (key, message) ∷ []

-- `"; ".join(f"{key}: {message}" for ...)`
unfoldable pub combined : List (Text × Text) → Text
combined [] = []
combined ((key, message) ∷ []) = key ++ codes ": " ++ message
combined ((key, message) ∷ next ∷ errors) =
    key ++ codes ": " ++ message ++ codes "; " ++ combined (next ∷ errors)

-- `not audio_path`
unfoldable pub audio_absent : Option Text → Bool
audio_absent path = is_empty (get_or path [])

module _ {ℓ} {Criterion : Type ℓ} where
  -- The errors that are left
  unfoldable pub remaining : MergeState Criterion → List (Text × Text)
  unfolding branch_errors drop_pronunciation set_default audio_absent
  remaining state =
      let errors = branch_errors state.branch_errors in
      if audio_absent state.audio_path
      then drop_pronunciation errors
      else if is_some state.pronunciation_result
      then errors
      else set_default (codes "pronunciation_error")
          (codes "pronunciation_result missing at merge_scores") errors

  -- The result, with the note that the pronunciation was not assessed if there is no recording
  unfoldable pub noted : Bool → Option (Result Criterion) → Result Criterion
  noted absent none = record {
    coherence = none;
    vocabulary = none;
    grammar = none;
    notes = not_assessed_note ∷ [];
  }
  noted true (some r) = record r {
    notes = if mem r.notes not_assessed_note then r.notes else r.notes ++ not_assessed_note ∷ [];
  }
  noted false (some r) = r

  -- `new` if it is not None
  unfoldable pub replace_by : Option Criterion → Option Criterion → Option Criterion
  replace_by old none = old
  replace_by old (some new) = some new

  unfoldable pub attach : MergeState Criterion → Result Criterion → Result Criterion
  unfolding replace_by
  attach state r = record r {
    coherence = replace_by r.coherence state.coherence_criterion;
    vocabulary = replace_by r.vocabulary state.lexical_criterion;
    grammar = replace_by r.grammar state.grammar_criterion;
  }

  unfoldable pub finish_merge : MergeState Criterion → List (Text × Text) → Merged Criterion
  unfolding attach noted audio_absent combined
  finish_merge state [] =
      completed (attach state (noted (audio_absent state.audio_path) state.pronunciation_result))
  finish_merge state (e ∷ errors) = failed (combined (e ∷ errors))

  unfoldable pub merge_scores_node : MergeState Criterion → Merged Criterion
  unfolding remaining finish_merge
  merge_scores_node state = finish_merge state (remaining state)
