-- ===== src/Speech/Tags.antt =====
-- The marks "[XX: text]" around what was said in another language than the target one
-- (src/utils/speech_client.py).
pub mod Marks
use voxenta_agentic_ai.Prelude.{
  ℕ, zero, suc, ◌+◌, Bool, true, false, ◌&&◌, ◌||◌, Option, none, some, List, [], ◌∷◌, ◌++◌, map,
  length, Text, codes, eqb, leb, if◌then◌else◌, word_count, space,
}
use voxenta_agentic_ai.Realtime.Transcript.{Fraction}

-- `[A-Z]`
unfoldable pub is_capital : ℕ → Bool
is_capital c = leb 65 c && leb c 90

-- `[^\]]*\]`: the text up to the first closing bracket, if there is one
unfoldable pub up_to_bracket : Text → Option Text
up_to_bracket [] = none
up_to_bracket (c ∷ s) =
    let rest : Option Text = elim (up_to_bracket s) [
      | some inner ↦ some (c ∷ inner)
      | none ↦ none
    ] in
    if eqb c 93 then some [] else rest

-- The inner text of the mark that begins the text: `\[[A-Z]{2}: ([^\]]*)\]`
unfoldable pub match_tag : Text → Option Text
unfolding is_capital up_to_bracket
match_tag (b ∷ x ∷ y ∷ colon ∷ blank ∷ s) =
    let inner = up_to_bracket s in
    if eqb b 91 && is_capital x && is_capital y && eqb colon 58 && eqb blank 32 then inner else none
match_tag s = none

-- `re.sub` of the marks by what a function makes of their inner text. A match at a character passes over
-- that many characters after it: the two capitals, the colon, the blank, the inner text and the bracket.
unfoldable pub replace_tags : (Text → Text) → ℕ → Text → Text
unfolding match_tag
replace_tags by skip [] = []
replace_tags by (suc skip) (c ∷ s) = replace_tags by skip s
replace_tags by zero (c ∷ s) = elim (match_tag (c ∷ s)) [
  | some inner ↦ by inner ++ replace_tags by (length inner + 5) s
  | none ↦ c ∷ replace_tags by zero s
]

-- `finditer`, in the same way
unfoldable pub find_tags : ℕ → Text → List Text
unfolding match_tag
find_tags skip [] = []
find_tags (suc skip) (c ∷ s) = find_tags skip s
find_tags zero (c ∷ s) = elim (match_tag (c ∷ s)) [
  | some inner ↦ inner ∷ find_tags (length inner + 5) s
  | none ↦ find_tags zero s
]

-- A text that is missing is the empty one here: the source returns the same for both.
unfoldable pub strip_non_target_segments : Text → Text
unfolding replace_tags
strip_non_target_segments s = replace_tags (λ inner. space) 0 s

unfoldable pub extract_non_target_segments : Text → List Text
unfolding find_tags
extract_non_target_segments s = find_tags 0 s

unfoldable pub unwrap_language_tags : Text → Text
unfolding replace_tags
unwrap_language_tags s = replace_tags (λ inner. inner) 0 s

abbrev pub sum : List ℕ → ℕ
sum [] = 0
sum (n ∷ ns) = n + sum ns

-- For a test of what `\w` matches, and `round(…, 2)`.
unfoldable pub compute_code_switching_ratio : (ℕ → Bool) → (Fraction → Fraction) → Text → Fraction
unfolding strip_non_target_segments extract_non_target_segments word_count
compute_code_switching_ratio word round_2 s =
    let target = word_count word (strip_non_target_segments s) in
    let other = sum (map (word_count word) (extract_non_target_segments s)) in
    if eqb (target + other) 0
    then record { numerator = 0; denominator = 1 }
    else round_2 (record { numerator = other; denominator = target + other })
