-- ===== src/Scoring/Judgment/Sorting.antt =====
-- The sorted scores, and the parts of a judgment that depend on them alone.
use voxenta_agentic_ai.Prelude.{
  ℕ, zero, suc, ◌-◌, ◌*◌, ◌/◌, ◌≤◌, ◌<◌, min, max, ◌≡◌, refl, sym, ap, ◌∙◌, Option, none, some,
  List, [], ◌∷◌, map, length, leb, if◌then◌else◌, arith,
}
use voxenta_agentic_ai.Realtime.Transcript.{Fraction}
use voxenta_agentic_ai.Scoring.Judgment.{
  Scored, ScoreRange, ConsensusJudgment, insert_scored, sort_scored, at, highest, lowest,
  score_span, confidence_of, count_ungrounded, judge,
}

abbrev pub scores_of : List Scored → List ℕ
scores_of ss = map (λ x. x.score) ss

unfoldable pub insert_score : ℕ → List ℕ → List ℕ
insert_score n [] = n ∷ []
insert_score n (m ∷ ms) = let rest = insert_score n ms in if leb n m then n ∷ m ∷ ms else m ∷ rest

unfoldable pub sort_scores : List ℕ → List ℕ
unfolding insert_score
sort_scores [] = []
sort_scores (n ∷ ns) = insert_score n (sort_scores ns)

scores-insert :
    (s : Scored) (ts : List Scored)
    → scores_of (insert_scored s ts) ≡ insert_score s.score (scores_of ts)
unfolding insert_scored insert_score
scores-insert s [] = refl
scores-insert s (t ∷ ts) = ground (arith, scores-insert s ts)

pub scores-sort : (ss : List Scored) → scores_of (sort_scored ss) ≡ sort_scores (scores_of ss)
unfolding sort_scored sort_scores
scores-sort [] = refl
scores-sort (s ∷ ss) = scores-insert s (sort_scored ss) ∙ ap (insert_score s.score) (scores-sort ss)

pub insert_comm :
    (n m : ℕ) (xs : List ℕ)
    → insert_score n (insert_score m xs) ≡ insert_score m (insert_score n xs)
unfolding insert_score
insert_comm n m [] = ground arith
insert_comm n m (x ∷ xs) = ground (arith, insert_comm n m xs)

length-insert : (n : ℕ) (xs : List ℕ) → length (insert_score n xs) ≡ suc (length xs)
unfolding insert_score
length-insert n [] = refl
length-insert n (x ∷ xs) = ground (arith, length-insert n xs)

pub length-sort : (xs : List ℕ) → length (sort_scores xs) ≡ length xs
unfolding sort_scores
length-sort [] = refl
length-sort (x ∷ xs) = omega (arith, length-insert x (sort_scores xs), length-sort xs)

highest-insert : (n : ℕ) (xs : List ℕ) → highest (insert_score n xs) ≡ max n (highest xs)
unfolding insert_score highest
highest-insert n [] = ground arith
highest-insert n (x ∷ xs) = ground (arith, highest-insert n xs)

highest-sort : (xs : List ℕ) → highest (sort_scores xs) ≡ highest xs
unfolding sort_scores highest
highest-sort [] = refl
highest-sort (x ∷ xs) = highest-insert x (sort_scores xs) ∙ ap (max x) (highest-sort xs)

-- The first of the sorted scores is the lowest.
lowest-sort : (n : ℕ) (xs : List ℕ) → at 0 (sort_scores (n ∷ xs)) 0 ≡ lowest n xs
unfolding sort_scores insert_score lowest at
lowest-sort n [] = refl
lowest-sort n (x ∷ xs) =
    first n (sort_scores (x ∷ xs)) (length-sort (x ∷ xs)) ∙ ap (min n) (lowest-sort x xs)
  where
    first :
        (n : ℕ) (ys : List ℕ)
        → length ys ≡ suc (length xs)
        → at 0 (insert_score n ys) 0 ≡ min n (at 0 ys 0)
    first n [] h = absurd (omega (arith, h))
    first n (y ∷ ys) h = ground arith

score-at : (s : Scored) (ss : List Scored) (i : ℕ) → (at s ss i).score ≡ at s.score (scores_of ss) i
unfolding at
score-at s [] i = refl
score-at s (t ∷ ss) zero = refl
score-at s (t ∷ ss) (suc i) = score-at s ss i

-- What a judgment says apart from the response that it selects.
pub record Measured : Type 0 where
  pub score : ℕ
  pub confidence : Fraction
  pub score_delta : Fraction

abbrev pub measure : Option ConsensusJudgment → Option Measured
measure none = none
measure (some j) = some (record {
  score = j.score;
  confidence = j.confidence;
  score_delta = j.score_delta_on_ten_point_scale;
})

-- The same from the sorted scores and the number of runs that are not grounded.
abbrev pub measured : ScoreRange → ℕ → ℕ → ℕ → ℕ → Measured
measured range ungrounded score spread runs = record {
  score = score;
  confidence = confidence_of (score_span range) spread ungrounded runs;
  score_delta = record { numerator = spread * 10; denominator = score_span range };
}

abbrev pub measure_two : ScoreRange → List ℕ → ℕ → Measured
measure_two range sorted ungrounded =
    measured range ungrounded (at 0 sorted (length sorted / 2)) (highest sorted - at 0 sorted 0)
      (length sorted)

unfoldable pub measure_sorted : ScoreRange → List ℕ → ℕ → Option Measured
measure_sorted range [] ungrounded = none
measure_sorted range (n ∷ []) ungrounded = some (record {
  score = n;
  confidence = record { numerator = 0; denominator = 1 };
  score_delta = record { numerator = 0; denominator = 1 };
})
measure_sorted range (n ∷ m ∷ ns) ungrounded = some (measure_two range (n ∷ m ∷ ns) ungrounded)

measure_sorted-two :
    (range : ScoreRange) (ns : List ℕ) (ungrounded : ℕ)
    → 2 ≤ length ns
    → measure_sorted range ns ungrounded ≡ some (measure_two range ns ungrounded)
unfolding measure_sorted
measure_sorted-two range [] ungrounded h = absurd (omega (arith, h))
measure_sorted-two range (n ∷ []) ungrounded h = absurd (omega (arith, h))
measure_sorted-two range (n ∷ m ∷ ns) ungrounded h = refl

pub length-scores : (ss : List Scored) → length (scores_of ss) ≡ length ss
length-scores [] = refl
length-scores (s ∷ ss) = ap suc (length-scores ss)

at-default : (a b : ℕ) (xs : List ℕ) (i : ℕ) → i < length xs → at a xs i ≡ at b xs i
unfolding at
at-default a b [] i h = absurd (omega (arith, h))
at-default a b (x ∷ xs) zero h = refl
at-default a b (x ∷ xs) (suc i) h = at-default a b xs i (omega (arith, h))

-- The score of the run that is selected.
pub score-selected :
    (s : Scored) (ss : List Scored) (i : ℕ)
    → i < length ss
    → (at s (sort_scored ss) i).score ≡ at 0 (sort_scores (scores_of ss)) i
score-selected s ss i h =
    let all = scores_of ss in
    score-at s (sort_scored ss) i
    ∙ ap (λ l. at s.score l i) (scores-sort ss)
    ∙ at-default s.score 0 (sort_scores all) i (omega (arith, h, length-sort all, length-scores ss))

pub measure-judge :
    (range : ScoreRange) (ss : List Scored)
    → measure (judge range ss)
      ≡ measure_sorted range (sort_scores (scores_of ss)) (count_ungrounded ss)
unfolding judge
measure-judge range [] = unfold sort_scores measure_sorted in refl
measure-judge range (s ∷ []) = unfold sort_scores insert_score measure_sorted in refl
measure-judge range (s ∷ t ∷ ss) =
    let scored = s ∷ t ∷ ss in
    let sorted = sort_scores (scores_of scored) in
    let same_length : length sorted ≡ length scored =
      length-sort (scores_of scored) ∙ length-scores scored in
    let same_score : (at s (sort_scored scored) (length scored / 2)).score
        ≡ at 0 sorted (length sorted / 2) =
      score-selected s scored (length scored / 2) (omega arith)
      ∙ ap (λ n. at 0 sorted (n / 2)) (sym same_length) in
    let low = lowest-sort s.score (scores_of (t ∷ ss)) in
    let high = highest-sort (scores_of scored) in
    let u = count_ungrounded scored in
    let middle = at 0 sorted (length sorted / 2) in
    let spread : highest (scores_of scored) - lowest s.score (scores_of (t ∷ ss))
        ≡ highest sorted - at 0 sorted 0 =
      omega (arith, low, high) in
    ap
      (λ a. some (
        measured range u a (highest (scores_of scored) - lowest s.score (scores_of (t ∷ ss)))
          (length scored)))
      same_score
    ∙ ap (λ b. some (measured range u middle b (length scored))) spread
    ∙ ap (λ n. some (measured range u middle (highest sorted - at 0 sorted 0) n)) (sym same_length)
    ∙ sym (measure_sorted-two range sorted (count_ungrounded scored) (omega (arith, same_length)))
