-- ===== src/Speech/WordErrors.antt =====
-- How far two transcripts are apart, word by word (`normalize_for_wer` and `word_error_rate` of
-- src/utils/speech_client.py).
pub mod Script
pub mod Distance
pub mod Rate
pub mod Metric
use voxenta_agentic_ai.Speech.Tags.{unwrap_language_tags}
use voxenta_agentic_ai.Prelude.{
  eqb, Bool, not, keep_if, ◌||◌, is_space, is_empty, split, joined, map, ℕ, suc, ◌+◌, min, Option,
  none, some, List, [], ◌∷◌, length, Text, text_eq, ◌==◌, if◌then◌else◌,
}
use voxenta_agentic_ai.Realtime.Transcript.{Fraction}

-- `str.lower`, the decomposition NFD, `unicodedata.combining`, and what `\w` matches
pub record Unicode : Type 0 where
  pub lower : Text → Text
  pub nfd : Text → Text
  pub combining : ℕ → Bool
  pub word : ℕ → Bool

-- `replace("đ", "d").replace("Đ", "D")`
unfoldable pub plain_d : ℕ → ℕ
plain_d c = if eqb c 0x111 then 100 else if eqb c 0x110 then 68 else c

unfoldable pub fold_vietnamese_diacritics : Unicode → Text → Text
unfolding plain_d
fold_vietnamese_diacritics unicode text =
    keep_if (λ c. not (unicode.combining c)) (unicode.nfd (map plain_d text))

-- `re.sub(r"\s+", " ", s).strip()` joins the words of `s.split()` by one space.
unfoldable pub normalize_for_wer : Unicode → Text → Text
unfolding fold_vietnamese_diacritics unwrap_language_tags is_space split joined
normalize_for_wer unicode text =
    let folded = fold_vietnamese_diacritics unicode (unicode.lower (unwrap_language_tags text)) in
    joined (split (map (λ c. if unicode.word c || is_space c then c else 32) folded))

-- `normalize_text`, which keeps the apostrophes
unfoldable pub normalize_text : Unicode → Option Text → Option Text
unfolding is_space split joined
normalize_text unicode none = none
normalize_text unicode (some text) =
    let spaced =
      map (λ c. if unicode.word c || is_space c || eqb c 39 then c else 32) (unicode.lower text) in
    let normalized = joined (split spaced) in if is_empty normalized then none else some normalized

-- `list(range(first, first + count))`, one number for each element of the list
unfoldable pub range_over : ℕ → List Text → List ℕ
range_over first [] = []
range_over first (w ∷ ws) = first ∷ range_over (first + 1) ws

-- The loop over `j`, for one word of the reference: the words of the hypothesis from `j` on, the entries
-- `distances[j:]` that are still those of the row before, `previous_diagonal` and `distances[j - 1]`.
unfoldable pub sweep : Text → List Text → List ℕ → ℕ → ℕ → List ℕ
sweep word [] row diagonal left = []
sweep word (h ∷ hs) [] diagonal left = []
sweep word (h ∷ hs) (above ∷ row) diagonal left =
    let cell = if word == h then diagonal else suc (min (min diagonal above) left) in
    cell ∷ sweep word hs row above cell

-- `distances[m]`, where `distances` is `first` and the entries after it
unfoldable pub last_entry : ℕ → List ℕ → ℕ
last_entry first [] = first
last_entry first (d ∷ row) = last_entry d row

-- The loop over `i`, which keeps one row: `distances[0]` and the entries after it.
unfoldable pub sweep_rows : List Text → List Text → ℕ → ℕ → List ℕ → ℕ
unfolding sweep last_entry
sweep_rows [] hypothesis i first row = last_entry first row
sweep_rows (word ∷ reference) hypothesis i first row =
    sweep_rows reference hypothesis (i + 1) i (sweep word hypothesis row first i)

unfoldable pub word_error_rate : List Text → List Text → Option Fraction
unfolding sweep_rows range_over
word_error_rate [] [] = none
word_error_rate [] (h ∷ hypothesis) = some (record { numerator = 1; denominator = 1 })
word_error_rate (r ∷ reference) hypothesis = some (record {
  numerator = sweep_rows (r ∷ reference) hypothesis 1 0 (range_over 1 hypothesis);
  denominator = length (r ∷ reference);
})
