-- ===== src/Speech/WordErrors/Rate.antt =====
-- The loop over one row computes the distance, and what the rate is.
use mathlib.Core.Path.{subst}
use mathlib.Core.List.{reverse-cons, reverse-reverse}
use voxenta_agentic_ai.Prelude.{
  ℕ, suc, ◌+◌, ◌≤◌, ◌≡◌, ◌∙◌, ap, sym, refl, some, List, [], ◌∷◌, ◌++◌, length, reverse,
  append_assoc, append-nil, Text, text_eq, arith,
}
use voxenta_agentic_ai.Speech.WordErrors.{
  range_over, sweep, last_entry, sweep_rows, word_error_rate,
}
use voxenta_agentic_ai.Speech.WordErrors.Script.{Script, Script-reverse}
use voxenta_agentic_ai.Speech.WordErrors.Distance.{distance, distance-least, distance-Script}

-- The entries of a row after the first: the words before them on either side, last word first, and the
-- words of the hypothesis that follow.
unfoldable row_of : List Text → List Text → List Text → List ℕ
unfolding distance
row_of old new [] = []
row_of old new (h ∷ hs) = distance old (h ∷ new) ∷ row_of old (h ∷ new) hs

sweep_lem :
    (word : Text) (old new hs : List Text)
    → sweep word hs (row_of old new hs) (distance old new) (distance (word ∷ old) new)
      ≡ row_of (word ∷ old) new hs
unfolding sweep row_of distance
sweep_lem word old new [] = refl
sweep_lem word old new (h ∷ hs) =
    ap (λ row. distance (word ∷ old) (h ∷ new) ∷ row) (sweep_lem word old (h ∷ new) hs)

reverse_onto :
    (w : Text) (ws tail : List Text) → reverse (w ∷ ws) ++ tail ≡ reverse ws ++ (w ∷ tail)
reverse_onto w ws tail =
    ap (λ front. front ++ tail) (reverse-cons w ws) ∙ append_assoc (reverse ws) (w ∷ []) tail

last_entry_lem :
    (old new hs : List Text)
    → last_entry (distance old new) (row_of old new hs) ≡ distance old (reverse hs ++ new)
unfolding last_entry row_of
last_entry_lem old new [] = refl
last_entry_lem old new (h ∷ hs) =
    last_entry_lem old (h ∷ new) hs ∙ ap (distance old) (sym (reverse_onto h hs new))

sweep_rows_lem :
    (reference old hs : List Text) (i : ℕ)
    → i ≡ suc (length old)
    → sweep_rows reference hs i (distance old []) (row_of old [] hs)
      ≡ distance (reverse reference ++ old) (reverse hs)
unfolding sweep_rows distance
sweep_rows_lem [] old hs i e =
    last_entry_lem old [] hs ∙ ap (distance old) (append-nil (reverse hs))
sweep_rows_lem (r ∷ reference) old hs i e =
    let first : i ≡ distance (r ∷ old) [] = e in
    let swept : sweep r hs (row_of old [] hs) (distance old []) i ≡ row_of (r ∷ old) [] hs =
      ap (sweep r hs (row_of old [] hs) (distance old [])) first ∙ sweep_lem r old [] hs in
    let rest = sweep_rows_lem reference (r ∷ old) hs (i + 1) (omega (arith, e)) in
    rw (swept, reverse_onto r reference old)
      (subst
        (λ k.
          sweep_rows reference hs (i + 1) k (row_of (r ∷ old) [] hs)
          ≡ distance (reverse reference ++ r ∷ old) (reverse hs))
        (sym first) rest)

range_over_lem :
    (new hs : List Text) (k : ℕ) → k ≡ suc (length new) → range_over k hs ≡ row_of [] new hs
unfolding range_over row_of distance
range_over_lem new [] k e = refl
range_over_lem new (h ∷ hs) k e =
    let rest = range_over_lem (h ∷ new) hs (k + 1) (omega (arith, e)) in cc

-- The loop is the distance of the two lists, read from the back.
loop-distance :
    (reference hs : List Text)
    → sweep_rows reference hs 1 0 (range_over 1 hs) ≡ distance (reverse reference) (reverse hs)
unfolding distance
loop-distance reference hs = rw (range_over_lem [] hs 1 refl) (
    sweep_rows_lem reference [] hs 1 refl
    ∙ ap (λ old. distance old (reverse hs)) (append-nil (reverse reference)))

-- The cost of the cheapest script.
abbrev pub IsCheapest : List Text → List Text → ℕ → Type 0
IsCheapest old new n = Script old new n × ((k : ℕ) → Script old new k → n ≤ k)

Script-reverse-back :
    {old new : List Text} {n : ℕ} → Script (reverse old) (reverse new) n → Script old new n
Script-reverse-back {old} {new} {n} s =
    subst (λ a. Script a new n) (reverse-reverse old)
      (subst (λ b. Script (reverse (reverse old)) b n) (reverse-reverse new) (Script-reverse s))

pub loop-IsCheapest :
    (reference hs : List Text)
    → IsCheapest reference hs (sweep_rows reference hs 1 0 (range_over 1 hs))
loop-IsCheapest reference hs = rw (loop-distance reference hs) (
  Script-reverse-back (distance-Script (reverse reference) (reverse hs)),
  λ k s. distance-least (Script-reverse s),
)

-- On a reference that is not empty, the rate has the cost of the cheapest script of edits as its
-- numerator, and the number of words of the reference as its denominator.
pub word_error_rate_lem :
    (r : Text) (reference hypothesis : List Text)
    → (n : ℕ) × (word_error_rate (r ∷ reference) hypothesis
        ≡ some (record { numerator = n; denominator = length (r ∷ reference) }))
      × Script (r ∷ reference) hypothesis n
      × ((k : ℕ) → Script (r ∷ reference) hypothesis k → n ≤ k)
unfolding word_error_rate
word_error_rate_lem r reference hypothesis =
    let (script, least) = loop-IsCheapest (r ∷ reference) hypothesis in
    (sweep_rows (r ∷ reference) hypothesis 1 0 (range_over 1 hypothesis), refl, script, least)
