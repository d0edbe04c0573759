-- ===== src/Scoring/Judgment/Median.antt =====
-- The run that is selected stands in the middle.
use mathlib.Core.Path.{subst}
use voxenta_agentic_ai.Prelude.{
  ℕ, zero, suc, ◌+◌, ◌*◌, ◌/◌, ◌≤◌, ◌<◌, ◌≡◌, refl, sym, ap, ◌∙◌, Bool, some, List, [], ◌∷◌, length,
  keep_if, leb, leb→le, get_or, ◌⊎◌, arith, All, Bool-cases, inl, inr,
}
use voxenta_agentic_ai.Scoring.Judgment.{
  Scored, ScoreRange, ConsensusJudgment, at, judge, sort_scored, insert_scored,
}
use voxenta_agentic_ai.Scoring.Judgment.Sorting.{
  scores_of, insert_score, sort_scores, length-sort, length-scores, score-selected, scores-sort,
}

abbrev pub count_at_most : ℕ → List ℕ → ℕ
count_at_most n ns = length (keep_if (λ m. leb m n) ns)

abbrev pub count_at_least : ℕ → List ℕ → ℕ
count_at_least n ns = length (keep_if (λ m. leb n m) ns)

abbrev IsAscending : List ℕ → Type 0
IsAscending [] = Unit
IsAscending (n ∷ ns) = All (λ m. n ≤ m) ns × IsAscending ns

All-insert :
    (k n : ℕ) (ns : List ℕ) → k ≤ n → All (λ m. k ≤ m) ns → All (λ m. k ≤ m) (insert_score n ns)
unfolding insert_score
All-insert k n [] h a = (h, tt)
All-insert k n (m ∷ ns) h (b, a) = elim (Bool-cases (leb n m)) [
  | inl e ↦ rw e (h, (b, a))
  | inr e ↦ rw e (b, All-insert k n ns h a)
]

All-weaken : (k n : ℕ) (ns : List ℕ) → k ≤ n → All (λ m. n ≤ m) ns → All (λ m. k ≤ m) ns
All-weaken k n [] h a = tt
All-weaken k n (m ∷ ns) h (b, a) = (omega (arith, h, b), All-weaken k n ns h a)

insert-IsAscending : (n : ℕ) (ns : List ℕ) → IsAscending ns → IsAscending (insert_score n ns)
unfolding insert_score
insert-IsAscending n [] a = (tt, tt)
insert-IsAscending n (m ∷ ns) (b, a) = elim (Bool-cases (leb n m)) [
  | inl e ↦ rw e ((omega (arith, leb→le n m e), All-weaken n m ns (leb→le n m e) b), (b, a))
  | inr e ↦ rw e (All-insert m n ns (ground arith) b, insert-IsAscending n ns a)
]

sort-IsAscending : (ns : List ℕ) → IsAscending (sort_scores ns)
unfolding sort_scores
sort-IsAscending [] = tt
sort-IsAscending (n ∷ ns) = insert-IsAscending n (sort_scores ns) (sort-IsAscending ns)

-- Sorting keeps what is counted.
count-sort :
    (p : ℕ → Bool) (ns : List ℕ) → length (keep_if p (sort_scores ns)) ≡ length (keep_if p ns)
unfolding sort_scores
count-sort p [] = refl
count-sort p (n ∷ ns) = ground (arith, count-insert n (sort_scores ns), count-sort p ns)
  where
    count-insert :
        (n : ℕ) (ms : List ℕ) → length (keep_if p (insert_score n ms)) ≡ length (keep_if p (n ∷ ms))
    count-insert n [] = unfold insert_score in refl
    count-insert n (m ∷ ms) = unfold insert_score in ground (arith, count-insert n ms)

All-at_least : (k : ℕ) (ns : List ℕ) → All (λ m. k ≤ m) ns → count_at_least k ns ≡ length ns
All-at_least k [] a = refl
All-at_least k (n ∷ ns) (b, a) = ground (arith, b, All-at_least k ns a)

at-least : (k i : ℕ) (ns : List ℕ) → i < length ns → All (λ m. k ≤ m) ns → k ≤ at 0 ns i
unfolding at
at-least k i [] h a = absurd (omega (arith, h))
at-least k zero (n ∷ ns) h (b, a) = b
at-least k (suc i) (n ∷ ns) h (b, a) = at-least k i ns (omega (arith, h)) a

-- In an ascending list `i + 1` elements are at most the one at `i`, and all from there on are at least it.
at-IsMiddle :
    (ns : List ℕ) (i : ℕ)
    → IsAscending ns
    → i < length ns
    → (i + 1 ≤ count_at_most (at 0 ns i) ns) × (length ns ≤ count_at_least (at 0 ns i) ns + i)
unfolding at
at-IsMiddle [] i a h = absurd (omega (arith, h))
at-IsMiddle (n ∷ ns) zero (b, a) h = (ground arith, ground (arith, All-at_least n ns b))
at-IsMiddle (n ∷ ns) (suc i) (b, a) h =
    let (low, high) = at-IsMiddle ns i a (omega (arith, h)) in
    let first = at-least n i ns (omega (arith, h)) b in
    (ground (arith, low, first), ground (arith, high))

abbrev pub IsIn : Scored → List Scored → Type 0
IsIn s [] = ⊥
IsIn s (t ∷ ts) = (s ≡ t) ⊎ IsIn s ts

IsIn-insert : (x s : Scored) (ts : List Scored) → IsIn x (insert_scored s ts) → IsIn x (s ∷ ts)
unfolding insert_scored
IsIn-insert x s [] h = h
IsIn-insert x s (t ∷ ts) h = elim (Bool-cases (leb s.score t.score)) [
  | inl e ↦ rw e at (h)
  | inr e ↦ elim (rw e at (h)) as (λ _. IsIn x (s ∷ t ∷ ts)) [
    | inl k ↦ inr (inl k)
    | inr k ↦ elim (IsIn-insert x s ts k) [ inl k ↦ inl k | inr m ↦ inr (inr m) ]
  ]
]

IsIn-sort : (x : Scored) (ss : List Scored) → IsIn x (sort_scored ss) → IsIn x ss
unfolding sort_scored
IsIn-sort x [] h = h
IsIn-sort x (s ∷ ss) h = elim (IsIn-insert x s (sort_scored ss) h) [
  | inl e ↦ inl e
  | inr k ↦ inr (IsIn-sort x ss k)
]

at-IsIn : (s : Scored) (ss : List Scored) (i : ℕ) → i < length ss → IsIn (at s ss i) ss
unfolding at
at-IsIn s [] i h = absurd (omega (arith, h))
at-IsIn s (t ∷ ss) zero h = inl refl
at-IsIn s (t ∷ ss) (suc i) h = inr (at-IsIn s ss i (omega (arith, h)))

length-sort_scored : (ss : List Scored) → length (sort_scored ss) ≡ length ss
length-sort_scored ss =
    sym (length-scores (sort_scored ss))
    ∙ ap length (scores-sort ss)
    ∙ length-sort (scores_of ss)
    ∙ length-scores ss

abbrev Halves : ℕ → List Scored → Type 0
Halves n ss =
    (length ss ≤ count_at_most n (scores_of ss) * 2)
    × (length ss ≤ count_at_least n (scores_of ss) * 2)

middle-Halves :
    (ss : List Scored)
    → 0 < length ss
    → Halves (at 0 (sort_scores (scores_of ss)) (length ss / 2)) ss
middle-Halves ss h =
    let sorted = sort_scores (scores_of ss) in
    let n = at 0 sorted (length ss / 2) in
    let size : length sorted ≡ length ss = length-sort (scores_of ss) ∙ length-scores ss in
    let (low, high) =
      at-IsMiddle sorted (length ss / 2) (sort-IsAscending (scores_of ss))
        (omega (arith, size, h)) in
    let below = count-sort (λ m. leb m n) (scores_of ss) in
    let above = count-sort (λ m. leb n m) (scores_of ss) in
    (omega (arith, low, below), omega (arith, high, above, size))

-- The response that is selected belongs to a run, and its score is a median of the scores: at least half
-- of them are at most it, and at least half are at least it.
pub judge-median :
    (range : ScoreRange) (ss : List Scored) {j : ConsensusJudgment}
    → judge range ss ≡ some j
    → ((s : Scored) × IsIn s ss × (s.response ≡ j.response) × (s.score ≡ j.score))
      × (length ss ≤ count_at_most j.score (scores_of ss) * 2)
      × (length ss ≤ count_at_least j.score (scores_of ss) * 2)
unfolding judge
judge-median range [] h = cc
judge-median range (s ∷ []) {j} h =
    let same_response : s.response ≡ j.response = ap (λ o. (get_or o j).response) h in
    let same_score : s.score ≡ j.score = ap (λ o. (get_or o j).score) h in
    (
      (s, inl refl, same_response, same_score),
      ground (arith, same_score),
      ground (arith, same_score),
    )
judge-median range (s ∷ t ∷ ss) {j} h =
    let scored = s ∷ t ∷ ss in
    let i = length scored / 2 in
    let x = at s (sort_scored scored) i in
    let short : i < length (sort_scored scored) = omega (arith, length-sort_scored scored) in
    let member = IsIn-sort x scored (at-IsIn s (sort_scored scored) i short) in
    let same_response : x.response ≡ j.response = ap (λ o. (get_or o j).response) h in
    let same_score : x.score ≡ j.score = ap (λ o. (get_or o j).score) h in
    let halves : Halves (at 0 (sort_scores (scores_of scored)) i) scored =
      middle-Halves scored (omega arith) in
    let value : at 0 (sort_scores (scores_of scored)) i ≡ j.score =
      sym (score-selected s scored i (omega arith)) ∙ same_score in
    let (below, above) = subst (λ n. Halves n scored) value halves in
    ((x, member, same_response, same_score), below, above)
