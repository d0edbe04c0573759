-- ===== src/Realtime/Archive/Channels.antt =====
-- What a run of the archive graph does to the channels that it does not mean to write.
use voxenta_agentic_ai.Prelude.{
  ℕ, ◌*◌, ◌≡◌, refl, false, none, some, List, [], ◌∷◌, ◌++◌, length, length-append, find?-append,
  eqb, mem, mem-append, ℕ_eq, is_empty, arith, Bool-cases, Option-cases, inl, inr, any,
}
use voxenta_agentic_ai.Realtime.Turn.{Turn, DecisionEntry}
use voxenta_agentic_ai.Realtime.Checkpoint.{Values, find_entry, last_decision}
use voxenta_agentic_ai.Realtime.Archive.{
  ArchiveInput, Services, write_input, resubmit, transcribe_turn, append_turn, archive_turn,
}

last_decision-append :
    (o : ℕ) (xs ys : List DecisionEntry)
    → last_decision o (xs ++ ys)
      ≡ (elim (last_decision o ys) [ some e ↦ some e | none ↦ last_decision o xs ])
unfolding last_decision
last_decision-append o [] ys = ground arith
last_decision-append o (x ∷ xs) ys = ground (arith, last_decision-append o xs ys)

-- What the program reads of those channels: the live transcript of a turn, its decision, and whether it
-- was published.
pub record SameReads (v v' : Values) : Type 0 where
  pub entry : (o : ℕ) → find_entry o v'.realtime_transcripts ≡ find_entry o v.realtime_transcripts
  pub decision : (o : ℕ) → last_decision o v'.decision_reasons ≡ last_decision o v.decision_reasons
  pub published : (o : ℕ) → mem v'.published_turn_orders o ≡ mem v.published_turn_orders o
  pub preliminary : (o : ℕ) → mem v'.preliminary_turn_orders o ≡ mem v.preliminary_turn_orders o

resubmit-SameReads : (v : Values) → SameReads v (resubmit v)
unfolding resubmit find_entry
resubmit-SameReads v = record {
  entry = λ o.
      ground (
        arith,
        find?-append (λ e. eqb e.turn_order o) v.realtime_transcripts v.realtime_transcripts,
      );
  decision = λ o. ground (arith, last_decision-append o v.decision_reasons v.decision_reasons);
  published = λ o. ground (arith, mem-append v.published_turn_orders v.published_turn_orders o);
  preliminary =
      λ o. ground (arith, mem-append v.preliminary_turn_orders v.preliminary_turn_orders o);
}

SameReads-trans : (u v w : Values) → SameReads u v → SameReads v w → SameReads u w
SameReads-trans u v w a b = record {
  entry = λ o. ground (arith, a.entry o, b.entry o);
  decision = λ o. ground (arith, a.decision o, b.decision o);
  published = λ o. ground (arith, a.published o, b.published o);
  preliminary = λ o. ground (arith, a.preliminary o, b.preliminary o);
}

append_turn-SameReads : (t : Turn) (v : Values) → SameReads v (append_turn t v)
unfolding append_turn
append_turn-SameReads t v =
    let same = resubmit-SameReads v in
    elim (Bool-cases (any (λ u. eqb u.turn_order t.turn_order) v.turns)) [
      | inl old ↦ rw (old, append_turn) same
      | inr new ↦
          rw (new, append_turn)
            (record {
              entry = same.entry;
              decision = same.decision;
              published = same.published;
              preliminary = same.preliminary;
            })
    ]

write_input-SameReads : (i : ArchiveInput) (v : Values) → SameReads v (write_input i v)
unfolding write_input
write_input-SameReads i v = record {
  entry = λ o. refl;
  decision = λ o. refl;
  published = λ o. refl;
  preliminary = λ o. refl;
}

-- Nor does its first checkpoint.
pub first-SameReads : (i : ArchiveInput) (v : Values) → SameReads v (resubmit (write_input i v))
first-SameReads i v =
    SameReads-trans v (write_input i v) _ (write_input-SameReads i v)
      (resubmit-SameReads (write_input i v))

-- A run of the archive graph, whether it succeeds or not, changes nothing that the program reads of
-- these channels.
pub archive_turn-SameReads :
    (s : Services) (i : ArchiveInput) (v : Values) → SameReads v (archive_turn s i v).1
unfolding archive_turn
archive_turn-SameReads s i v =
    let v' = write_input i v in
    let given = write_input-SameReads i v in
    let again = SameReads-trans v v' (resubmit v') given (resubmit-SameReads v') in
    elim (Option-cases (transcribe_turn s i v')) [
      | inl e ↦ rw (e, archive_turn) again
      | inr (t, e) ↦
          rw (e, archive_turn)
            (SameReads-trans v (resubmit v') _ again (append_turn-SameReads t (resubmit v')))
    ]

length_four {ℓ} : {A : Type ℓ} (xs : List A) → length ((xs ++ xs) ++ (xs ++ xs)) ≡ 4 * length xs
length_four xs = omega (arith, length-append (xs ++ xs) (xs ++ xs), length-append xs xs)

-- Yet a run that succeeds leaves each of these lists four times as long as it was: both nodes submit
-- the whole list again, and it is appended.
pub archive_turn_quadruples :
    (s : Services) (i : ArchiveInput) (v : Values)
    → is_empty i.audio_path ≡ false
    → let v' = (archive_turn s i v).1 in
      (length v'.realtime_transcripts ≡ 4 * length v.realtime_transcripts)
      × (length v'.decision_reasons ≡ 4 * length v.decision_reasons)
      × (length v'.published_turn_orders ≡ 4 * length v.published_turn_orders)
      × (length v'.preliminary_turn_orders ≡ 4 * length v.preliminary_turn_orders)
unfolding archive_turn write_input transcribe_turn append_turn resubmit
archive_turn_quadruples s i v h = ground (
  arith,
  length_four v.realtime_transcripts,
  length_four v.decision_reasons,
  length_four v.published_turn_orders,
  length_four v.preliminary_turn_orders,
)
