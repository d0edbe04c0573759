-- ===== src/Evaluation/Validity/Verdict.antt =====
-- When the gate rejects an answer.
use mathlib.Core.Path.{subst}
use voxenta_agentic_ai.Realtime.Followup.Signals.{get_expected_min_words}
use voxenta_agentic_ai.Prelude.{
  ℕ, ◌≡◌, ◌∙◌, refl, Bool, true, false, not, ◌&&◌, ◌||◌, Option, none, some, List, [], ◌∷◌, ◌++◌,
  any, Text, text_eq, ◌==◌, codes, ltb, eqb, mem, get_or, if◌then◌else◌, arith, Bool-cases, inl,
  inr,
}
use voxenta_agentic_ai.Evaluation.Rules.{
  RuleResult, is_blocking_reject, build_validity_result_from_rules, normalize_rule_result,
  normalize_rule_action, allowed_or,
}
use voxenta_agentic_ai.Evaluation.Validity.{
  LlmRule, Services, Answer, no_speech, in_wrong_language, wrong_language, penalty, under_half,
  expected_min_response, language_criteria, too_short, too_few_words, too_brief, local_rules,
  merge_rule, merge_rules, is_asked, llm_rules, all_rules, validity_of, is_rejected,
}

any-append {ℓ} :
    {A : Type ℓ} (p : A → Bool) (xs ys : List A) → any p (xs ++ ys) ≡ (any p xs || any p ys)
any-append p [] ys = refl
any-append p (x ∷ xs) ys = ground (arith, any-append p xs ys)

cong_or : {a b c d : Bool} → a ≡ b → c ≡ d → (a || c) ≡ (b || d)
cong_or e f = rw (e, f) refl

or_false : (b : Bool) → (b || false) ≡ b
or_false true = refl
or_false false = refl

-- The verdict is the test of the rules.
rejected_rules :
    (rules : List RuleResult) (n : ℕ)
    → is_rejected (some (build_validity_result_from_rules rules n)) ≡ any is_blocking_reject rules
unfolding is_rejected build_validity_result_from_rules
rejected_rules rules n = elim (Bool-cases (any is_blocking_reject rules)) [
  | inl e ↦ rw e refl
  | inr e ↦ rw e refl
]

no_speech-reject : (a : Answer) → any is_blocking_reject (no_speech a) ≡ eqb a.word_count 0
unfolding no_speech mem
no_speech-reject a = elim (Bool-cases (eqb a.word_count 0)) [
  | inl e ↦
      rw e
        (unfold is_blocking_reject normalize_rule_result normalize_rule_action allowed_or in refl)
  | inr e ↦ rw e refl
]

wrong_language-reject :
    (services : Services) (a : Answer)
    → any is_blocking_reject (wrong_language services a) ≡ in_wrong_language services a
unfolding wrong_language mem
wrong_language-reject services a = elim (Bool-cases (in_wrong_language services a)) [
  | inl e ↦
      rw e
        (unfold is_blocking_reject normalize_rule_result normalize_rule_action allowed_or in refl)
  | inr e ↦ rw e refl
]

penalty-reject :
    (rule_id category : Text) (targets : List Text)
    → is_blocking_reject (penalty rule_id category targets) ≡ false
unfolding penalty is_blocking_reject normalize_rule_result normalize_rule_action allowed_or mem
penalty-reject rule_id category targets = refl

if-reject :
    (b : Bool) (rules : List RuleResult)
    → any is_blocking_reject rules ≡ false
    → any is_blocking_reject (if b then rules else []) ≡ false
if-reject true rules h = h
if-reject false rules h = refl

one_penalty-reject :
    (rule_id category : Text) (targets : List Text)
    → any is_blocking_reject (penalty rule_id category targets ∷ []) ≡ false
one_penalty-reject rule_id category targets = rw (penalty-reject rule_id category targets) refl

too_short-reject : (a : Answer) → any is_blocking_reject (too_short a) ≡ false
unfolding too_short
too_short-reject a =
    if-reject (not a.is_turn_fragment && (not a.is_scripted && ltb 0 a.word_count))
      (too_few_words a ++ too_brief a)
      (any-append is_blocking_reject (too_few_words a) (too_brief a) ∙ rw (few, brief) refl)
  where
    few : any is_blocking_reject (too_few_words a) ≡ false
    few =
        unfold too_few_words in
        if-reject
          (ltb a.word_count
            (get_expected_min_words a.question_type a.duration_seconds a.min_response_seconds))
          (penalty (codes "answer_length.too_short") (codes "length") language_criteria ∷ [])
          (one_penalty-reject (codes "answer_length.too_short") (codes "length") language_criteria)

    brief : any is_blocking_reject (too_brief a) ≡ false
    brief =
        unfold too_brief in
        if-reject (under_half a.actual_response (expected_min_response a))
          (penalty (codes "answer_duration.too_short") (codes "duration")
              (codes "fluency" ∷ language_criteria)
            ∷ [])
          (one_penalty-reject (codes "answer_duration.too_short") (codes "duration")
            (codes "fluency" ∷ language_criteria))

local_rules-reject :
    (services : Services) (a : Answer)
    → any is_blocking_reject (local_rules services a)
      ≡ (eqb a.word_count 0 || in_wrong_language services a)
unfolding local_rules
local_rules-reject services a =
    any-append is_blocking_reject (no_speech a ++ wrong_language services a) (too_short a)
    ∙ rw
        (
          any-append is_blocking_reject (no_speech a) (wrong_language services a),
          no_speech-reject a,
          wrong_language-reject services a,
          too_short-reject a,
        )
        (or_false (eqb a.word_count 0 || in_wrong_language services a))

-- A rule of the model that rejects: it is triggered, it blocks unless it says otherwise, and its action is none
-- of the three that let an answer be scored.
unfoldable pub rejects : LlmRule → Bool
rejects rule =
    rule.triggered
    && (get_or rule.blocking true
        && not (
            mem (codes "score" ∷ codes "score_with_penalty" ∷ codes "teacher_review" ∷ [])
              (get_or rule.action (codes "reject_or_zero"))))

-- The rules before the first that is no object.
unfoldable pub readable : List (Option LlmRule) → List LlmRule
readable [] = []
readable (none ∷ rules) = []
readable (some rule ∷ rules) = rule ∷ readable rules

-- The action counts as a rejection unless it is one of the other three.
abbrev ActionCounts : Text → Type 0
ActionCounts action =
    (normalize_rule_action (some action) == codes "reject_or_zero")
    ≡ not (mem (codes "score" ∷ codes "score_with_penalty" ∷ codes "teacher_review" ∷ []) action)

at_known :
    (known action : Text) → (known == action) ≡ true → ActionCounts known → ActionCounts action
at_known known action e h = subst ActionCounts ((text_eq.beq_iff known action).0 e) h

action_counts : (action : Text) → ActionCounts action
unfolding normalize_rule_action allowed_or mem
action_counts action = elim (Bool-cases (codes "score" == action)) [
  | inl e ↦ at_known (codes "score") action e refl
  | inr e1 ↦ elim (Bool-cases (codes "score_with_penalty" == action)) [
    | inl e ↦ at_known (codes "score_with_penalty") action e refl
    | inr e2 ↦ elim (Bool-cases (codes "teacher_review" == action)) [
      | inl e ↦ at_known (codes "teacher_review") action e refl
      | inr e3 ↦ elim (Bool-cases (codes "reject_or_zero" == action)) [
        | inl e ↦ at_known (codes "reject_or_zero") action e refl
        | inr e4 ↦ rw (e1, e2, e3, e4) refl
      ]
    ]
  ]
]

merge_rule-reject :
    (rule : LlmRule) → (rule.triggered && is_blocking_reject (merge_rule rule)) ≡ rejects rule
unfolding merge_rule rejects is_blocking_reject normalize_rule_result
merge_rule-reject rule = rw (action_counts (get_or rule.action (codes "reject_or_zero"))) refl

merge_rules-reject :
    (rules : List (Option LlmRule))
    → any is_blocking_reject (merge_rules rules) ≡ any rejects (readable rules)
unfolding merge_rules readable
merge_rules-reject [] = refl
merge_rules-reject (none ∷ rules) = refl
merge_rules-reject (some rule ∷ rules) = elim (Bool-cases rule.triggered) [
  | inl e ↦ rw e (cong_or (rw e at (merge_rule-reject rule)) (merge_rules-reject rules))
  | inr e ↦ rw e (cong_or (rw e at (merge_rule-reject rule)) (merge_rules-reject rules))
]

-- The model's answer has a rule that rejects.
unfoldable pub model_rejects : Services → Answer → Bool
unfolding rejects readable
model_rejects services a = any rejects (readable (get_or (services.ask a.text) []))

-- What the two local tests leave to the model.
combined :
    (n : ℕ) (wrong fragment model : Bool)
    → ((eqb n 0 || wrong) || ((not fragment && (not (eqb n 0 || wrong) && ltb 0 n)) && model))
      ≡ ((eqb n 0 || wrong) || (not fragment && model))
combined n wrong fragment model = ground arith

llm_rules-reject :
    (services : Services) (a : Answer) (rules : List RuleResult)
    → any is_blocking_reject (llm_rules services a rules)
      ≡ (is_asked a rules && model_rejects services a)
unfolding llm_rules model_rejects
llm_rules-reject services a rules = elim (Bool-cases (is_asked a rules)) [
  | inl e ↦ rw e (merge_rules-reject (get_or (services.ask a.text) []))
  | inr e ↦ rw e refl
]

-- An answer is rejected if it has no word, or if more than seventy percent of its words are in another
-- language, or if it is a complete answer and the model's reply has, before any rule that is no object, a rule
-- that is triggered, blocks, and has an action other than the three that let it be scored; and for no other
-- reason.
pub validity_of-rejected :
    (services : Services) (a : Answer)
    → is_rejected (some (validity_of services a)) ≡ (
        (eqb a.word_count 0 || in_wrong_language services a)
        || (not a.is_turn_fragment && model_rejects services a))
unfolding validity_of all_rules
validity_of-rejected services a =
    let rules = local_rules services a in
    rejected_rules (rules ++ llm_rules services a rules) a.word_count
    ∙ any-append is_blocking_reject rules (llm_rules services a rules)
    ∙ rw (llm_rules-reject services a rules, is_asked, local_rules-reject services a)
        (combined a.word_count (in_wrong_language services a) a.is_turn_fragment
          (model_rejects services a))
