-- ===== src/Realtime/Archive/Turns.antt =====
-- The archived turns: one record for each turn, kept as it was first archived.
use voxenta_agentic_ai.Prelude.{
  ℕ, ◌+◌, ◌≤◌, ◌≡◌, refl, Bool, true, false, none, some, List, [], ◌∷◌, ◌++◌, length, find?, any,
  keep_if, eqb, is_empty, is_some, if◌then◌else◌, arith, Option-cases, inl, inr,
}
use voxenta_agentic_ai.Realtime.Turn.{Turn}
use voxenta_agentic_ai.Realtime.Checkpoint.{Values, find_turn}
use voxenta_agentic_ai.Realtime.Archive.{
  ArchiveInput, Services, write_input, resubmit, transcribe_turn, append_turn, archive_turn,
}

abbrev pub has_order : ℕ → Turn → Bool
has_order o t = eqb t.turn_order o

-- How many records there are of a turn.
abbrev pub records_of : ℕ → List Turn → ℕ
records_of o ts = length (keep_if (has_order o) ts)

records_of-append :
    (o : ℕ) (t : Turn) (ts : List Turn)
    → records_of o (ts ++ t ∷ []) ≡ records_of o ts + (if has_order o t then 1 else 0)
records_of-append o t [] = ground arith
records_of-append o t (u ∷ ts) = ground (arith, records_of-append o t ts)

records_of-none : (o : ℕ) (ts : List Turn) → any (has_order o) ts ≡ false → records_of o ts ≡ 0
records_of-none o [] h = refl
records_of-none o (u ∷ ts) h = ground (arith, records_of-none o ts)

find?-append_one :
    (o : ℕ) (t : Turn) (ts : List Turn)
    → find? (has_order o) (ts ++ t ∷ []) ≡ (elim (find? (has_order o) ts) [
      | some u ↦ some u
      | none ↦ if has_order o t then some t else none
    ])
find?-append_one o t [] = ground arith
find?-append_one o t (u ∷ ts) = ground (arith, find?-append_one o t ts)

find?-any : (o : ℕ) (ts : List Turn) → is_some (find? (has_order o) ts) ≡ any (has_order o) ts
find?-any o [] = refl
find?-any o (u ∷ ts) = ground (arith, find?-any o ts)

turns-archive_turn :
    (s : Services) (i : ArchiveInput) (v : Values)
    → is_empty i.audio_path ≡ false
    → (t : Turn) × (t.turn_order ≡ i.turn_order)
      × ((archive_turn s i v).1.turns
          ≡ (if any (has_order i.turn_order) v.turns then v.turns else v.turns ++ t ∷ []))
unfolding archive_turn transcribe_turn write_input append_turn resubmit
turns-archive_turn s i v h = elim (Option-cases (transcribe_turn s i (write_input i v))) [
  | inl e ↦ absurd (ground arith)
  | inr (t, e) ↦ (t, ground arith, ground arith)
]

module _ (s : Services) (i : ArchiveInput) (v : Values)
    (heard : is_empty i.audio_path ≡ false) where
  -- A run of the archive graph on an audio file leaves a record of its turn. It alters no record that
  -- was there, adds no second record of a turn, and a run for a turn that has one already (a retry of
  -- the request) leaves the list as it was.
  pub archive_turn_once :
      (is_some (find_turn i.turn_order (archive_turn s i v).1.turns) ≡ true)
      × ((o : ℕ) (u : Turn)
          → find_turn o v.turns ≡ some u
          → find_turn o (archive_turn s i v).1.turns ≡ some u)
      × ((o : ℕ) → records_of o v.turns ≤ 1 → records_of o (archive_turn s i v).1.turns ≤ 1)
      × (is_some (find_turn i.turn_order v.turns) ≡ true → (archive_turn s i v).1.turns ≡ v.turns)
  unfolding find_turn
  archive_turn_once =
      let (t, same, e) = turns-archive_turn s i v heard in
      (
        ground (
          arith,
          e,
          same,
          find?-append_one i.turn_order t v.turns,
          find?-any i.turn_order v.turns,
        ),
        λ o u f. ground (arith, e, find?-append_one o t v.turns, f),
        λ o k. ground (arith, e, same, records_of-append o t v.turns, records_of-none o v.turns),
        λ old. ground (arith, e, find?-any i.turn_order v.turns, old),
      )
