-- ===== src/Prelude/Texts.antt =====
-- Python's `str` as the list of its code points, with the methods that the program calls.
use Prim.Native.Nat.{ℕ, ◌+◌}
use Prim.Native.Char.{code}
use Prim.Native.String.{String}
use mathlib.Core.Bool.{Bool, true, false, ◌&&◌, ◌||◌}
use mathlib.Core.List.{List, [], ◌∷◌, map, reverse, ◌++◌}
use voxenta_agentic_ai.Prelude.Tests.{eqb, leb, if◌then◌else◌}
use voxenta_agentic_ai.Prelude.Equality.{Eq, list_eqb, list_eqb_iff}

abbrev pub Text : Type 0
Text = List ℕ

instance abbrev pub text_eq : Eq Text
text_eq = record { beq = list_eqb eqb; beq_iff = list_eqb_iff }

abbrev pub codes : String → Text
codes String.[] = []
codes (String.◌∷◌ c s) = code c ∷ codes s

-- `not s`
abbrev pub is_empty : Text → Bool
is_empty [] = true
is_empty (c ∷ s) = false

-- `s or t`
abbrev pub or_text : Text → Text → Text
or_text s t = if is_empty s then t else s

-- `str.isspace` of one character: the code points that `strip()` and `split()` drop.
unfoldable pub is_space : ℕ → Bool
is_space c =
    (leb 9 c && leb c 13)
    || (leb 28 c && leb c 32)
    || eqb c 0x85
    || eqb c 0xa0
    || eqb c 0x1680
    || (leb 0x2000 c && leb c 0x200a)
    || eqb c 0x2028
    || eqb c 0x2029
    || eqb c 0x202f
    || eqb c 0x205f
    || eqb c 0x3000

-- `lstrip`
unfoldable pub strip_left : Text → Text
unfolding is_space
strip_left [] = []
strip_left (c ∷ s) = if is_space c then strip_left s else c ∷ s

-- `strip()`
unfoldable pub strip : Text → Text
unfolding strip_left
strip s = reverse (strip_left (reverse (strip_left s)))

-- `lower()`. The program compares the result with ASCII words only, so the letters A to Z are
-- the ones that matter; other code points stay.
unfoldable pub lower_code : ℕ → ℕ
lower_code c = if leb 65 c && leb c 90 then c + 32 else c

unfoldable pub lower : Text → Text
unfolding lower_code
lower = map lower_code

-- `s.startswith(prefix)`
unfoldable pub starts_with : Text → Text → Bool
starts_with s [] = true
starts_with [] (p ∷ ps) = false
starts_with (c ∷ s) (p ∷ ps) = eqb c p && starts_with s ps

-- `split()`: the maximal runs of characters that are no space. The second argument is the word
-- in progress, last character first.
unfoldable pub split_from : Text → Text → List Text
unfolding is_space
split_from [] [] = []
split_from [] (w ∷ ws) = reverse (w ∷ ws) ∷ []
split_from (c ∷ s) [] = split_from s (if is_space c then [] else c ∷ [])
split_from (c ∷ s) (w ∷ ws) =
    let done = reverse (w ∷ ws) ∷ split_from s [] in
    let longer = split_from s (c ∷ w ∷ ws) in if is_space c then done else longer

unfoldable pub split : Text → List Text
unfolding split_from
split s = split_from s []

abbrev pub space : Text
space = codes " "

-- `" ".join(texts)`
unfoldable pub joined : List Text → Text
joined [] = []
joined (t ∷ []) = t
joined (t ∷ u ∷ ts) = t ++ space ++ joined (u ∷ ts)

-- `len(re.findall(r"\b\w+\b", s))`: the maximal runs of word characters; the flag says that the
-- character before was one.
unfoldable pub count_runs : (ℕ → Bool) → Bool → Text → ℕ
count_runs word inside [] = 0
count_runs word inside (c ∷ s) =
    let rest = count_runs word (word c) s in
    if word c then (if inside then rest else rest + 1) else rest

-- `word_count` of src/utils/text_utils.py, for a test of what `\w` matches.
unfoldable pub word_count : (ℕ → Bool) → Text → ℕ
unfolding count_runs
word_count word s = count_runs word false s
