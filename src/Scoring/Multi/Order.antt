-- ===== src/Scoring/Multi/Order.antt =====
-- The order in which the runs complete does not matter.
use mathlib.Core.List.{Perm, Permᴰ}
use mathlib.Core.Logic.{∥∥₁_elim}
use voxenta_agentic_ai.Prelude.{
  ℕ, ◌+◌, ◌≡◌, refl, sym, ap, ◌∙◌, Bool, true, false, ◌||◌, Option, none, some, List, [], ◌∷◌, ◌++◌,
  map, Text, All, any, ◌⊎◌, inl, inr, arith, if◌then◌else◌,
}
use voxenta_agentic_ai.Scoring.Calls.{Attempt, rate_limited, broken, gave}
use voxenta_agentic_ai.Scoring.Judgment.{
  TextTools, Scored, ScoreRange, ConsensusJudgment, read_score, judge, count_ungrounded,
}
use voxenta_agentic_ai.Scoring.Judgment.Sorting.{
  scores_of, insert_score, sort_scores, insert_comm, Measured, measure, measure_sorted,
  measure-judge,
}
use voxenta_agentic_ai.Scoring.Multi.{
  Round, not_object, object, Gathered, Outcome, raised, done, judge_columns, failure_of, put_first,
  empty_column, run_one, run_multi_criterion_consensus_judgment,
}
use voxenta_agentic_ai.Scoring.Multi.Criteria.{
  IsMalformed, SomeMalformed, opt_list, opt_bind, scored_for, error_of, columns_for, gather_lem,
  gather-malformed,
}

-- What the judgments say apart from the responses that they select, or nothing if something is raised.
abbrev pub measure_list : List (Text × ConsensusJudgment) → List (Text × Option Measured)
measure_list js = map (λ (p : Text × ConsensusJudgment). (p.0, measure (some p.1))) js

abbrev pub measures :
    Outcome (List (Text × ConsensusJudgment)) → Option (List (Text × Option Measured))
measures (raised e) = none
measures (done js) = some (measure_list js)

is_malformed : Attempt Round → Bool
is_malformed (rate_limited e) = false
is_malformed (broken e) = false
is_malformed (gave not_object) = true
is_malformed (gave (object response)) = false

malformed_among : List (Attempt Round) → Bool
unfolding is_malformed
malformed_among runs = any is_malformed runs

IsMalformed-cases :
    (runs : List (Attempt Round))
    → ((malformed_among runs ≡ true) × SomeMalformed runs)
      ⊎ ((malformed_among runs ≡ false) × All (λ r. ¬ IsMalformed r) runs)
unfolding malformed_among
IsMalformed-cases [] = inr (refl, tt)
IsMalformed-cases (rate_limited e ∷ runs) = elim (IsMalformed-cases runs) [
  | inl (e, h) ↦ inl (e, inr h)
  | inr (e, h) ↦ inr (e, (λ x. x, h))
]
IsMalformed-cases (broken e ∷ runs) = elim (IsMalformed-cases runs) [
  | inl (e, h) ↦ inl (e, inr h)
  | inr (e, h) ↦ inr (e, (λ x. x, h))
]
IsMalformed-cases (gave not_object ∷ runs) = inl (refl, inl tt)
IsMalformed-cases (gave (object response) ∷ runs) = elim (IsMalformed-cases runs) [
  | inl (e, h) ↦ inl (e, inr h)
  | inr (e, h) ↦ inr (e, (λ x. x, h))
]

-- What does not see the order of two neighbours does not see the order at all.
module _ {X : Type 0} (G : List ℕ → X)
    (same_head : (a : ℕ) (l l' : List ℕ) → G l ≡ G l' → G (a ∷ l) ≡ G (a ∷ l'))
    (neighbours : (a b : ℕ) (l : List ℕ) → G (a ∷ b ∷ l) ≡ G (b ∷ a ∷ l)) where
  reordered : {l l' : List ℕ} → Permᴰ l l' → G l ≡ G l'
  reordered Permᴰ.nil = refl
  reordered (Permᴰ.cons {a} {b} {l₁} {l₂} e d) =
      same_head a l₁ l₂ (reordered d) ∙ ap (λ x. G (x ∷ l₂)) e
  reordered (Permᴰ.swap {a} {b} {a'} {b'} {l} e₁ e₂) =
      neighbours a b l ∙ ap (λ x. G (x ∷ a ∷ l)) e₂ ∙ ap (λ x. G (a' ∷ x ∷ l)) e₁
  reordered (Permᴰ.trans d₁ d₂) = reordered d₁ ∙ reordered d₂

-- A run that is added to the sorted scores of a criterion.
put_score : Option Scored → List ℕ → List ℕ
put_score none ns = ns
put_score (some s) ns = insert_score s.score ns

put_score_comm :
    (a b : Option Scored) (ns : List ℕ)
    → put_score a (put_score b ns) ≡ put_score b (put_score a ns)
unfolding put_score
put_score_comm none b ns = refl
put_score_comm (some a) none ns = refl
put_score_comm (some a) (some b) ns = insert_comm a.score b.score ns

ungrounded_of : Option Scored → ℕ
ungrounded_of none = 0
ungrounded_of (some s) = if s.grounded then 0 else 1

module _ (tools : TextTools) (transcript : Text) where
  entry : Text × ScoreRange → Attempt Round → Option Scored
  entry c (rate_limited e) = none
  entry c (broken e) = none
  entry c (gave not_object) = none
  entry c (gave (object response)) = opt_bind (read_score tools transcript c.1) (response c.0)

  scored_for-cons :
      (c : Text × ScoreRange) (r : Attempt Round) (runs : List (Attempt Round))
      → scored_for tools transcript c (r ∷ runs)
        ≡ opt_list (entry c r) ++ scored_for tools transcript c runs
  unfolding scored_for entry
  scored_for-cons c (rate_limited e) runs = refl
  scored_for-cons c (broken e) runs = refl
  scored_for-cons c (gave not_object) runs = refl
  scored_for-cons c (gave (object response)) runs = refl

  abbrev sorted_for : Text × ScoreRange → List (Attempt Round) → List ℕ
  sorted_for c runs = sort_scores (scores_of (scored_for tools transcript c runs))

  abbrev ungrounded_for : Text × ScoreRange → List (Attempt Round) → ℕ
  ungrounded_for c runs = count_ungrounded (scored_for tools transcript c runs)

  sorted_for-cons :
      (c : Text × ScoreRange) (r : Attempt Round) (runs : List (Attempt Round))
      → sorted_for c (r ∷ runs) ≡ put_score (entry c r) (sorted_for c runs)
  sorted_for-cons c r runs =
      ap (λ ss. sort_scores (scores_of ss)) (scored_for-cons c r runs) ∙ go (entry c r)
    where
      go :
          (o : Option Scored)
          → sort_scores (scores_of (opt_list o ++ scored_for tools transcript c runs))
            ≡ put_score o (sorted_for c runs)
      go none = unfold put_score in refl
      go (some s) = unfold put_score sort_scores in refl

  ungrounded_for-cons :
      (c : Text × ScoreRange) (r : Attempt Round) (runs : List (Attempt Round))
      → ungrounded_for c (r ∷ runs) ≡ ungrounded_of (entry c r) + ungrounded_for c runs
  ungrounded_for-cons c r runs = ap count_ungrounded (scored_for-cons c r runs) ∙ go (entry c r)
    where
      go :
          (o : Option Scored)
          → count_ungrounded (opt_list o ++ scored_for tools transcript c runs)
            ≡ ungrounded_of o + ungrounded_for c runs
      go none = unfold ungrounded_of in omega arith
      go (some s) = unfold ungrounded_of count_ungrounded in ground arith

  module _ (f : ℕ → Attempt Round) where
    sorted_for-perm :
        (c : Text × ScoreRange) {l l' : List ℕ}
        → Perm l l'
        → sorted_for c (map f l) ≡ sorted_for c (map f l')
    sorted_for-perm c {l} {l'} p =
        ∥∥₁_elim p (hlevel) (reordered (λ l. sorted_for c (map f l)) head swapped)
      where
        head :
            (a : ℕ) (l l' : List ℕ)
            → sorted_for c (map f l) ≡ sorted_for c (map f l')
            → sorted_for c (map f (a ∷ l)) ≡ sorted_for c (map f (a ∷ l'))
        head a l l' e =
            sorted_for-cons c (f a) (map f l)
            ∙ ap (put_score (entry c (f a))) e
            ∙ sym (sorted_for-cons c (f a) (map f l'))

        both :
            (a b : ℕ) (l : List ℕ)
            → sorted_for c (map f (a ∷ b ∷ l))
              ≡ put_score (entry c (f a)) (put_score (entry c (f b)) (sorted_for c (map f l)))
        both a b l =
            sorted_for-cons c (f a) (f b ∷ map f l)
            ∙ ap (put_score (entry c (f a))) (sorted_for-cons c (f b) (map f l))

        swapped :
            (a b : ℕ) (l : List ℕ)
            → sorted_for c (map f (a ∷ b ∷ l)) ≡ sorted_for c (map f (b ∷ a ∷ l))
        swapped a b l =
            both a b l
            ∙ put_score_comm (entry c (f a)) (entry c (f b)) (sorted_for c (map f l))
            ∙ sym (both b a l)

    ungrounded_for-perm :
        (c : Text × ScoreRange) {l l' : List ℕ}
        → Perm l l'
        → ungrounded_for c (map f l) ≡ ungrounded_for c (map f l')
    ungrounded_for-perm c {l} {l'} p =
        ∥∥₁_elim p (hlevel) (reordered (λ l. ungrounded_for c (map f l)) head swapped)
      where
        head :
            (a : ℕ) (l l' : List ℕ)
            → ungrounded_for c (map f l) ≡ ungrounded_for c (map f l')
            → ungrounded_for c (map f (a ∷ l)) ≡ ungrounded_for c (map f (a ∷ l'))
        head a l l' e = omega (
          arith,
          e,
          ungrounded_for-cons c (f a) (map f l),
          ungrounded_for-cons c (f a) (map f l'),
        )

        swapped :
            (a b : ℕ) (l : List ℕ)
            → ungrounded_for c (map f (a ∷ b ∷ l)) ≡ ungrounded_for c (map f (b ∷ a ∷ l))
        swapped a b l = omega (
          arith,
          ungrounded_for-cons c (f a) (f b ∷ map f l),
          ungrounded_for-cons c (f b) (map f l),
          ungrounded_for-cons c (f b) (f a ∷ map f l),
          ungrounded_for-cons c (f a) (map f l),
        )

  malformed_among-perm :
      (f : ℕ → Attempt Round) {l l' : List ℕ}
      → Perm l l'
      → malformed_among (map f l) ≡ malformed_among (map f l')
  unfolding malformed_among
  malformed_among-perm f p = ∥∥₁_elim p (hlevel) (
      reordered (λ l. malformed_among (map f l)) (λ a l l' e. ap (λ b. is_malformed (f a) || b) e)
        (λ a b l. or_swap (is_malformed (f a)) (is_malformed (f b)) _))
    where
      or_swap : (a b c : Bool) → (a || (b || c)) ≡ (b || (a || c))
      or_swap true true c = refl
      or_swap true false c = refl
      or_swap false true c = refl
      or_swap false false c = refl

  -- The measures of the criteria from their sorted scores.
  abbrev add_measure :
      Text
      → Option Measured
      → Option (List (Text × Option Measured))
      → Option (List (Text × Option Measured))
  add_measure key none ms = none
  add_measure key (some m) none = none
  add_measure key (some m) (some ms) = some ((key, some m) ∷ ms)

  abbrev profile : List (Attempt Round) → Text × ScoreRange → Option Measured
  profile runs c = measure_sorted c.1 (sorted_for c runs) (ungrounded_for c runs)

  measure_all :
      List (Attempt Round) → List (Text × ScoreRange) → Option (List (Text × Option Measured))
  measure_all runs [] = some []
  measure_all runs (c ∷ cs) = add_measure c.0 (profile runs c) (measure_all runs cs)

  measures-judge_columns :
      (runs : List (Attempt Round)) (first : Option Text) (cs : List (Text × ScoreRange))
      → measures (judge_columns first (columns_for tools transcript runs cs)) ≡ measure_all runs cs
  unfolding judge_columns measure_all
  measures-judge_columns runs first [] = refl
  measures-judge_columns runs first (c ∷ cs) =
      let scored = scored_for tools transcript c runs in
      let rest = judge_columns first (columns_for tools transcript runs cs) in
      added (judge c.1 scored) rest
      ∙ ap (λ m. add_measure c.0 m (measures rest)) (measure-judge c.1 scored)
      ∙ ap (add_measure c.0 (profile runs c)) (measures-judge_columns runs first cs)
    where
      added :
          (o : Option ConsensusJudgment) (rest : Outcome (List (Text × ConsensusJudgment)))
          → measures (elim o as (λ _. Outcome (List (Text × ConsensusJudgment))) [
            | none ↦ raised (failure_of first c.0)
            | some j ↦ put_first c.0 j rest
          ])
            ≡ add_measure c.0 (measure o) (measures rest)
      added none rest = refl
      added (some j) (raised e) = refl
      added (some j) (done js) = refl

  measure_all-perm :
      (f : ℕ → Attempt Round) (cs : List (Text × ScoreRange)) {l l' : List ℕ}
      → Perm l l'
      → measure_all (map f l) cs ≡ measure_all (map f l') cs
  unfolding measure_all
  measure_all-perm f [] p = refl
  measure_all-perm f (c ∷ cs) p =
      rw (sorted_for-perm f c p, ungrounded_for-perm f c p, measure_all-perm f cs p) refl

  module _ (criteria : List (Text × ScoreRange)) (primary : ℕ → ℕ → Attempt Round)
      (fallback : ℕ → Attempt Round) where
    abbrev result : List ℕ → Outcome (List (Text × ConsensusJudgment))
    result = run_multi_criterion_consensus_judgment tools transcript criteria primary fallback

    measures-result :
        (order : List ℕ)
        → let runs = map (run_one primary fallback) order in
          measures (result order)
          ≡ (if malformed_among runs then none else measure_all runs criteria)
    unfolding run_multi_criterion_consensus_judgment
    measures-result order =
        let runs = map (run_one primary fallback) order in
        let start : Gathered = record { columns = map empty_column criteria; first_error = none } in
        elim (IsMalformed-cases runs) [
          | inl (e, h) ↦
              rw
                (
                  e,
                  gather-malformed tools transcript runs start h,
                  run_multi_criterion_consensus_judgment,
                )
                refl
          | inr (e, h) ↦
              rw
                (
                  e,
                  gather_lem tools transcript runs start h,
                  run_multi_criterion_consensus_judgment,
                )
                (measures-judge_columns runs (error_of tools transcript none runs) criteria)
        ]

    -- The scores that are selected, the confidences and the deltas, and whether anything is raised, do not
    -- depend on the order in which the runs complete.
    pub run_multi-perm :
        {order order' : List ℕ}
        → Perm order order'
        → measures (result order) ≡ measures (result order')
    run_multi-perm {order} {order'} p =
        let f = run_one primary fallback in
        measures-result order
        ∙ ap (λ b. if b then none else measure_all (map f order) criteria)
            (malformed_among-perm f p)
        ∙ ap (λ m. if malformed_among (map f order') then none else m)
            (measure_all-perm f criteria p)
        ∙ sym (measures-result order')
