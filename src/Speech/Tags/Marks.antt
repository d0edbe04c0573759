-- ===== src/Speech/Tags/Marks.antt =====
-- What the patterns find in a text with a mark in front, or with no bracket in front.
use voxenta_agentic_ai.Prelude.{
  ℕ, ◌+◌, ◌≡◌, ◌∙◌, refl, sym, ap, Bool, true, false, ◌&&◌, none, some, [], ◌∷◌, ◌++◌, append_assoc,
  length, All, Text, codes, length-append, eqb, if◌then◌else◌, arith,
}
use voxenta_agentic_ai.Speech.Tags.{is_capital, up_to_bracket, match_tag, replace_tags, find_tags}

-- No bracket.
abbrev pub IsPlain : ℕ → Type 0
IsPlain c = (eqb c 91 ≡ false) × (eqb c 93 ≡ false)

-- Two capitals.
unfoldable pub is_tag_code : Text → Bool
unfolding is_capital
is_tag_code (x ∷ y ∷ []) = is_capital x && is_capital y
is_tag_code code = false

match_tag-none : (c : ℕ) (s : Text) → eqb c 91 ≡ false → match_tag (c ∷ s) ≡ none
unfolding match_tag
match_tag-none c [] h = refl
match_tag-none c (x ∷ []) h = refl
match_tag-none c (x ∷ y ∷ []) h = refl
match_tag-none c (x ∷ y ∷ z ∷ []) h = refl
match_tag-none c (x ∷ y ∷ z ∷ b ∷ s) h = rw h refl

up_to_bracket_lem : (u s : Text) → All IsPlain u → up_to_bracket (u ++ 93 ∷ s) ≡ some u
unfolding up_to_bracket
up_to_bracket_lem [] s h = refl
up_to_bracket_lem (c ∷ u) s h = rw (up_to_bracket_lem u s h.1, h.0.1) refl

pub replace_tags-plain :
    (by : Text → Text) (u s : Text)
    → All IsPlain u
    → replace_tags by 0 (u ++ s) ≡ u ++ replace_tags by 0 s
unfolding replace_tags
replace_tags-plain by [] s h = refl
replace_tags-plain by (c ∷ u) s h =
    rw (match_tag-none c (u ++ s) h.0.0, replace_tags)
      (ap (λ t. c ∷ t) (replace_tags-plain by u s h.1))

pub find_tags-plain : (u s : Text) → All IsPlain u → find_tags 0 (u ++ s) ≡ find_tags 0 s
unfolding find_tags
find_tags-plain [] s h = refl
find_tags-plain (c ∷ u) s h =
    rw (match_tag-none c (u ++ s) h.0.0, find_tags) (find_tags-plain u s h.1)

replace_tags-skip :
    (by : Text → Text) (u s : Text) → replace_tags by (length u) (u ++ s) ≡ replace_tags by 0 s
unfolding replace_tags
replace_tags-skip by [] s = refl
replace_tags-skip by (c ∷ u) s = replace_tags-skip by u s

find_tags-skip : (u s : Text) → find_tags (length u) (u ++ s) ≡ find_tags 0 s
unfolding find_tags
find_tags-skip [] s = refl
find_tags-skip (c ∷ u) s = find_tags-skip u s

-- A mark after its opening bracket.
abbrev pub mark_body : Text → Text → Text
mark_body code u = code ++ codes ": " ++ u ++ codes "]"

mark_body-length :
    (code u : Text) → is_tag_code code ≡ true → length (mark_body code u) ≡ length u + 5
unfolding is_tag_code
mark_body-length [] u h = cc
mark_body-length (x ∷ []) u h = cc
mark_body-length (x ∷ y ∷ z ∷ code) u h = cc
mark_body-length (x ∷ y ∷ []) u h = omega (arith, length-append u (codes "]"))

match_tag-mark :
    (code u s : Text)
    → is_tag_code code ≡ true
    → All IsPlain u
    → match_tag (91 ∷ mark_body code u ++ s) ≡ some u
unfolding match_tag is_tag_code
match_tag-mark [] u s h plain = cc
match_tag-mark (x ∷ []) u s h plain = cc
match_tag-mark (x ∷ y ∷ z ∷ code) u s h plain = cc
match_tag-mark (x ∷ y ∷ []) u s h plain =
    rw (append_assoc u (codes "]") s, up_to_bracket_lem u s plain)
      (go (is_capital x) (is_capital y) h)
  where
    go : (p q : Bool) → (p && q) ≡ true → (if p && q && true && true then some u else none) ≡ some u
    go true true h = refl
    go true false h = cc
    go false q h = cc

pub replace_tags-mark :
    (by : Text → Text) (code u s : Text)
    → is_tag_code code ≡ true
    → All IsPlain u
    → replace_tags by 0 (91 ∷ mark_body code u ++ s) ≡ by u ++ replace_tags by 0 s
unfolding replace_tags
replace_tags-mark by code u s h plain =
    rw (match_tag-mark code u s h plain, replace_tags)
      (ap (λ t. by u ++ t)
        (ap (λ k. replace_tags by k (mark_body code u ++ s)) (sym (mark_body-length code u h))
          ∙ replace_tags-skip by (mark_body code u) s))

pub find_tags-mark :
    (code u s : Text)
    → is_tag_code code ≡ true
    → All IsPlain u
    → find_tags 0 (91 ∷ mark_body code u ++ s) ≡ u ∷ find_tags 0 s
unfolding find_tags
find_tags-mark code u s h plain =
    rw (match_tag-mark code u s h plain, find_tags)
      (ap (λ t. u ∷ t)
        (ap (λ k. find_tags k (mark_body code u ++ s)) (sym (mark_body-length code u h))
          ∙ find_tags-skip (mark_body code u) s))
