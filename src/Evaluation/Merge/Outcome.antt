-- ===== src/Evaluation/Merge/Outcome.antt =====
-- When the merge completes.
use voxenta_agentic_ai.Prelude.{
  ◌≡◌, ◌∙◌, refl, Bool, true, false, ◌&&◌, ◌||◌, Option, none, some, List, [], ◌∷◌, Text, is_empty,
  is_some, codes, mem, if◌then◌else◌, Bool-cases, inl, inr, arith, any, ◌==◌, text_eq,
}
use voxenta_agentic_ai.Evaluation.Merge.{
  Result, MergeState, Merged, completed, failed, branch_errors, drop_pronunciation, set_default,
  audio_absent, remaining, finish_merge, merge_scores_node,
}

unfoldable is_nothing {ℓ} : {A : Type ℓ} → List A → Bool
is_nothing [] = true
is_nothing (x ∷ xs) = false

and_true : (l q : Bool) → (l && q) ≡ ((l && q) && true)
and_true l q = ground arith

and_false : (l q : Bool) → false ≡ ((l && q) && false)
and_false l q = ground arith

shuffle : (p a l q : Bool) → (p && (a && (l && q))) ≡ ((l && q) && (p && a))
shuffle p a l q = ground arith

no_errors :
    (p a l q : Text)
    → is_nothing (
        branch_errors (record {
          pronunciation_error = p;
          azure_score_scale_error = a;
          answer_length_error = l;
          language_quality_error = q;
        }))
      ≡ (is_empty p && (is_empty a && (is_empty l && is_empty q)))
unfolding branch_errors is_nothing
no_errors [] [] [] [] = refl
no_errors [] [] [] (c ∷ q) = refl
no_errors [] [] (c ∷ l) q = refl
no_errors [] (c ∷ a) l q = refl
no_errors (c ∷ p) a l q = refl

no_other_errors :
    (p a l q : Text)
    → is_nothing (
        drop_pronunciation (
          branch_errors (record {
            pronunciation_error = p;
            azure_score_scale_error = a;
            answer_length_error = l;
            language_quality_error = q;
          })))
      ≡ (is_empty l && is_empty q)
unfolding branch_errors is_nothing drop_pronunciation mem
no_other_errors [] [] [] [] = refl
no_other_errors [] [] [] (c ∷ q) = refl
no_other_errors [] [] (c ∷ l) q = refl
no_other_errors [] (c ∷ a) [] [] = refl
no_other_errors [] (c ∷ a) [] (d ∷ q) = refl
no_other_errors [] (c ∷ a) (d ∷ l) q = refl
no_other_errors (c ∷ p) [] [] [] = refl
no_other_errors (c ∷ p) [] [] (d ∷ q) = refl
no_other_errors (c ∷ p) [] (d ∷ l) q = refl
no_other_errors (c ∷ p) (e ∷ a) [] [] = refl
no_other_errors (c ∷ p) (e ∷ a) [] (d ∷ q) = refl
no_other_errors (c ∷ p) (e ∷ a) (d ∷ l) q = refl

set_default-something :
    (key message : Text) (errors : List (Text × Text))
    → is_nothing (set_default key message errors) ≡ false
unfolding set_default is_nothing
set_default-something key message [] = refl
set_default-something key message (e ∷ errors) =
    elim (Bool-cases (any (λ p. p.0 == key) (e ∷ errors))) [ inl h ↦ rw h refl | inr h ↦ rw h refl ]

module _ {ℓ} {Criterion : Type ℓ} where
  unfoldable pub is_completed : Merged Criterion → Bool
  is_completed (completed r) = true
  is_completed (failed message) = false

  finish_merge-completed :
      (state : MergeState Criterion) (errors : List (Text × Text))
      → is_completed (finish_merge state errors) ≡ is_nothing errors
  unfolding finish_merge is_completed is_nothing
  finish_merge-completed state [] = refl
  finish_merge-completed state (e ∷ errors) = refl

  -- The merge completes if neither the answer length nor the language quality has an error, and either there is no
  -- recording, whatever became of the pronunciation, or the pronunciation has a result and its two nodes have no
  -- error; and only then.
  pub merge_scores_node-completed :
      (state : MergeState Criterion)
      → let e = state.branch_errors in
        is_completed (merge_scores_node state) ≡ (
          (is_empty e.answer_length_error && is_empty e.language_quality_error)
          && (audio_absent state.audio_path
              || (is_some state.pronunciation_result
                  && (is_empty e.pronunciation_error && is_empty e.azure_score_scale_error))))
  unfolding merge_scores_node
  merge_scores_node-completed state =
      let e = state.branch_errors in
      finish_merge-completed state (remaining state)
      ∙ (elim (Bool-cases (audio_absent state.audio_path)) [
        | inl h ↦
            rw (remaining, h)
              (no_other_errors e.pronunciation_error e.azure_score_scale_error e.answer_length_error
                  e.language_quality_error
                ∙ and_true (is_empty e.answer_length_error) (is_empty e.language_quality_error))
        | inr h ↦ rw (remaining, h) (with_audio state.pronunciation_result)
      ])
    where
      with_audio :
          (result : Option (Result Criterion))
          → is_nothing (
              if is_some result
              then branch_errors state.branch_errors
              else set_default
                  (codes "pronunciation_error")
                  (codes "pronunciation_result missing at merge_scores")
                  (branch_errors state.branch_errors))
            ≡ ((is_empty state.branch_errors.answer_length_error
                  && is_empty state.branch_errors.language_quality_error)
                && (is_some result
                    && (is_empty state.branch_errors.pronunciation_error
                        && is_empty state.branch_errors.azure_score_scale_error)))
      with_audio none =
          set_default-something (codes "pronunciation_error")
            (codes "pronunciation_result missing at merge_scores")
            (branch_errors state.branch_errors)
          ∙ and_false (is_empty state.branch_errors.answer_length_error)
              (is_empty state.branch_errors.language_quality_error)
      with_audio (some r) =
          let e = state.branch_errors in
          no_errors e.pronunciation_error e.azure_score_scale_error e.answer_length_error
            e.language_quality_error
          ∙ shuffle (is_empty e.pronunciation_error) (is_empty e.azure_score_scale_error)
              (is_empty e.answer_length_error) (is_empty e.language_quality_error)
