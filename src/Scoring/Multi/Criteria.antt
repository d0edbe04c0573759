-- ===== src/Scoring/Multi/Criteria.antt =====
-- Each criterion is judged on its own responses.
use voxenta_agentic_ai.Prelude.{
  ℕ, ◌≡◌, ◌≢◌, refl, sym, ap, ◌∙◌, Option, none, some, List, [], ◌∷◌, ◌++◌, map, Text, All,
  append_assoc, append-nil, ◌⊎◌, inl, inr, Option-cases,
}
use voxenta_agentic_ai.Scoring.Calls.{Attempt, rate_limited, broken, gave}
use voxenta_agentic_ai.Scoring.Judgment.{
  Response, TextTools, Scored, ScoreRange, ConsensusJudgment, read_score, judge,
}
use voxenta_agentic_ai.Scoring.Multi.{
  Round, not_object, object, Column, Gathered, raised, done, Failure, not_an_object, add_response,
  or_first, gather, failure_of, judge_columns, empty_column, run_one,
  run_multi_criterion_consensus_judgment,
}

-- The run came back with no JSON object.
abbrev pub IsMalformed : Attempt Round → Type 0
IsMalformed (gave not_object) = Unit
IsMalformed _ = ⊥

abbrev pub SomeMalformed : List (Attempt Round) → Type 0
SomeMalformed [] = ⊥
SomeMalformed (r ∷ runs) = IsMalformed r ⊎ SomeMalformed runs

abbrev pub opt_list {ℓ} : {A : Type ℓ} → Option A → List A
opt_list none = []
opt_list (some a) = a ∷ []

abbrev pub opt_bind {ℓ κ} : {A : Type ℓ} {B : Type κ} → (A → Option B) → Option A → Option B
opt_bind f none = none
opt_bind f (some a) = f a

module _ (tools : TextTools) (transcript : Text) where
  -- The runs with a score for one criterion, in the order of the runs.
  unfoldable pub scored_for : Text × ScoreRange → List (Attempt Round) → List Scored
  scored_for (key, range) [] = []
  scored_for (key, range) (rate_limited e ∷ runs) = scored_for (key, range) runs
  scored_for (key, range) (broken e ∷ runs) = scored_for (key, range) runs
  scored_for (key, range) (gave not_object ∷ runs) = scored_for (key, range) runs
  scored_for (key, range) (gave (object response) ∷ runs) =
      opt_list (opt_bind (read_score tools transcript range) (response key))
      ++ scored_for (key, range) runs

  unfoldable pub error_of : Option Text → List (Attempt Round) → Option Text
  error_of first [] = first
  error_of first (rate_limited e ∷ runs) = error_of (or_first first e) runs
  error_of first (broken e ∷ runs) = error_of (or_first first e) runs
  error_of first (gave round ∷ runs) = error_of first runs

  abbrev pub with_scored : List (Attempt Round) → Column → Column
  with_scored runs c = record c { scored = c.scored ++ scored_for (c.key, c.range) runs }

  add_response-append :
      (response : Text → Option Response) (c : Column)
      → add_response tools transcript response c ≡ record c {
        scored =
            c.scored ++ opt_list (opt_bind (read_score tools transcript c.range) (response c.key));
      }
  unfolding add_response
  add_response-append response c = go (response c.key)
    where
      found :
          (o : Option Scored)
          → (elim o [ none ↦ c | some s ↦ record c { scored = c.scored ++ s ∷ [] } ])
            ≡ record c { scored = c.scored ++ opt_list o }
      found none = ap (λ l. record c { scored = l }) (sym (append-nil c.scored))
      found (some s) = refl

      go :
          (o : Option Response)
          → (elim o [
            | none ↦ c
            | some r ↦ elim (read_score tools transcript c.range r) [
              | none ↦ c
              | some s ↦ record c { scored = c.scored ++ s ∷ [] }
            ]
          ])
            ≡ record c {
              scored = c.scored ++ opt_list (opt_bind (read_score tools transcript c.range) o);
            }
      go none = ap (λ l. record c { scored = l }) (sym (append-nil c.scored))
      go (some r) = found (read_score tools transcript c.range r)

  add-with_scored :
      (response : Text → Option Response) (runs : List (Attempt Round)) (c : Column)
      → with_scored runs (add_response tools transcript response c)
        ≡ with_scored (gave (object response) ∷ runs) c
  unfolding scored_for
  add-with_scored response runs c =
      let one = opt_list (opt_bind (read_score tools transcript c.range) (response c.key)) in
      ap (with_scored runs) (add_response-append response c)
      ∙ ap (λ l. record c { scored = l })
          (append_assoc c.scored one (scored_for (c.key, c.range) runs))

  map-add :
      (response : Text → Option Response) (runs : List (Attempt Round)) (cs : List Column)
      → map (with_scored runs) (map (add_response tools transcript response) cs)
        ≡ map (with_scored (gave (object response) ∷ runs)) cs
  map-add response runs [] = refl
  map-add response runs (c ∷ cs) =
      ap (λ d. d ∷ map (with_scored runs) (map (add_response tools transcript response) cs))
        (add-with_scored response runs c)
      ∙ ap (λ ds. with_scored (gave (object response) ∷ runs) c ∷ ds) (map-add response runs cs)

  map-none : (cs : List Column) → map (with_scored []) cs ≡ cs
  unfolding scored_for
  map-none [] = refl
  map-none (c ∷ cs) =
      ap (λ l. record c { scored = l } ∷ map (with_scored []) cs) (append-nil c.scored)
      ∙ ap (λ ds. c ∷ ds) (map-none cs)

  pub gather_lem :
      (runs : List (Attempt Round)) (g : Gathered)
      → All (λ r. ¬ IsMalformed r) runs
      → gather tools transcript runs g
        ≡ done (record {
          columns = map (with_scored runs) g.columns;
          first_error = error_of g.first_error runs;
        })
  unfolding gather error_of scored_for
  gather_lem [] g a =
      ap (λ cs. done (record { columns = cs; first_error = g.first_error }))
        (sym (map-none g.columns))
  gather_lem (rate_limited e ∷ runs) g (h, a) =
      gather_lem runs (record g { first_error = or_first g.first_error e }) a
  gather_lem (broken e ∷ runs) g (h, a) =
      gather_lem runs (record g { first_error = or_first g.first_error e }) a
  gather_lem (gave not_object ∷ runs) g (h, a) = absurd (h tt)
  gather_lem (gave (object response) ∷ runs) g (h, a) =
      gather_lem runs
        (record g { columns = map (add_response tools transcript response) g.columns }) a
      ∙ ap (λ cs. done (record { columns = cs; first_error = error_of g.first_error runs }))
          (map-add response runs g.columns)

  pub gather-malformed :
      (runs : List (Attempt Round)) (g : Gathered)
      → SomeMalformed runs
      → gather tools transcript runs g ≡ raised not_an_object
  unfolding gather
  gather-malformed [] g h = absurd h
  gather-malformed (rate_limited e ∷ runs) g (inl h) = absurd h
  gather-malformed (rate_limited e ∷ runs) g (inr h) = gather-malformed runs _ h
  gather-malformed (broken e ∷ runs) g (inl h) = absurd h
  gather-malformed (broken e ∷ runs) g (inr h) = gather-malformed runs _ h
  gather-malformed (gave not_object ∷ runs) g h = refl
  gather-malformed (gave (object response) ∷ runs) g (inl h) = absurd h
  gather-malformed (gave (object response) ∷ runs) g (inr h) = gather-malformed runs _ h

  -- The judgments are those of the criteria, in order, each on its own runs.
  abbrev pub Judged :
      List (Attempt Round) → List (Text × ScoreRange) → List (Text × ConsensusJudgment) → Type 0
  Judged runs [] [] = Unit
  Judged runs [] (j ∷ js) = ⊥
  Judged runs (c ∷ cs) [] = ⊥
  Judged runs (c ∷ cs) (j ∷ js) =
      (c.0 ≡ j.0) × (judge c.1 (scored_for c runs) ≡ some j.1) × Judged runs cs js

  -- The columns at the end of the loop.
  abbrev pub columns_for : List (Attempt Round) → List (Text × ScoreRange) → List Column
  columns_for runs cs = map (with_scored runs) (map empty_column cs)

  abbrev HasRun : List (Attempt Round) → Text × ScoreRange → Type 0
  HasRun runs c = scored_for c runs ≢ []

  abbrev pub SomeWithout : List (Attempt Round) → List (Text × ScoreRange) → Type 0
  SomeWithout runs [] = ⊥
  SomeWithout runs (c ∷ cs) = (scored_for c runs ≡ []) ⊎ SomeWithout runs cs

  judge-some :
      (range : ScoreRange) (ss : List Scored)
      → ss ≢ []
      → (j : ConsensusJudgment) × (judge range ss ≡ some j)
  unfolding judge
  judge-some range [] h = absurd (h refl)
  judge-some range (s ∷ []) h = (_, refl)
  judge-some range (s ∷ t ∷ ss) h = (_, refl)

  judge_columns-done :
      (runs : List (Attempt Round)) (first : Option Text) (cs : List (Text × ScoreRange))
      → All (HasRun runs) cs
      → (js : List (Text × ConsensusJudgment)) × (judge_columns first (columns_for runs cs)
          ≡ done js)
        × Judged runs cs js
  unfolding judge_columns
  judge_columns-done runs first [] a = ([], refl, tt)
  judge_columns-done runs first (c ∷ cs) (h, a) =
      let (j, e) = judge-some c.1 (scored_for c runs) h in
      let (js, k, rest) = judge_columns-done runs first cs a in
      ((c.0, j) ∷ js, rw (e, judge_columns, k) refl, (refl, e, rest))

  judge_columns-raised :
      (runs : List (Attempt Round)) (first : Option Text) (cs : List (Text × ScoreRange))
      → SomeWithout runs cs
      → (e : Failure) × (judge_columns first (columns_for runs cs) ≡ raised e)
  unfolding judge_columns
  judge_columns-raised runs first [] h = absurd h
  judge_columns-raised runs first (c ∷ cs) (inl h) =
      (failure_of first c.0, rw h (unfold judge in refl))
  judge_columns-raised runs first (c ∷ cs) (inr h) =
      let (e, k) = judge_columns-raised runs first cs h in
      elim (Option-cases (judge c.1 (scored_for c runs))) [
        | inl n ↦ (failure_of first c.0, rw (n, judge_columns) refl)
        | inr (j, n) ↦ (e, rw (n, judge_columns, k) refl)
      ]

  module _ (criteria : List (Text × ScoreRange)) (primary : ℕ → ℕ → Attempt Round)
      (fallback : ℕ → Attempt Round) (order : List ℕ) where
    -- Where each run comes back with an object or an exception, and each criterion has a run with a valid
    -- score, every criterion has the judgment on its own runs, whatever the runs say of the others. If one
    -- criterion has no such run, or one run is no object, nothing is judged.
    pub run_multi_lem :
        let runs = map (run_one primary fallback) order in
        let result =
          run_multi_criterion_consensus_judgment tools transcript criteria primary fallback order in
        (All (λ r. ¬ IsMalformed r) runs
          → All (HasRun runs) criteria
          → (js : List (Text × ConsensusJudgment)) × (result ≡ done js) × Judged runs criteria js)
        × (All (λ r. ¬ IsMalformed r) runs
            → SomeWithout runs criteria
            → (e : Failure) × (result ≡ raised e))
        × (SomeMalformed runs → result ≡ raised not_an_object)
    unfolding run_multi_criterion_consensus_judgment
    run_multi_lem =
        let runs = map (run_one primary fallback) order in
        let start : Gathered = record { columns = map empty_column criteria; first_error = none } in
        (
          λ ok has.
              let (js, e, judged) = judge_columns-done runs (error_of none runs) criteria has in
              (js, rw (gather_lem runs start ok, run_multi_criterion_consensus_judgment) e, judged),
          λ ok missing.
              let (e, k) = judge_columns-raised runs (error_of none runs) criteria missing in
              (e, rw (gather_lem runs start ok, run_multi_criterion_consensus_judgment) k),
          λ bad. rw (gather-malformed runs start bad, run_multi_criterion_consensus_judgment) refl,
        )
