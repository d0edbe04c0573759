-- ===== src/Realtime/Publisher/Careful.antt =====
-- Steps with care, and how often a turn was sent.
use voxenta_agentic_ai.Prelude.{
  ℕ, ◌+◌, ◌≡◌, Bool, true, false, List, [], ◌∷◌, ℕ_eq, length, eqb, keep_if,
}
use voxenta_agentic_ai.Realtime.Publisher.{
  Phase, Sent, System, Task, persisting_reason, checking, sending_preliminary, marking_preliminary,
  waiting, rechecking, sending_full, reporting_usage, marking_full, finished, Outcome, success,
  Step, spawned, went_on, archive_began, archive_saved, archive_ended, World, heard, used,
  restarted,
}
use voxenta_agentic_ai.Realtime.Publisher.Marks.{is_of}

-- How many events of this phase were sent for the turn.
abbrev pub times_sent : Phase → ℕ → List Sent → ℕ
times_sent phase order sent = length (keep_if (is_of phase order) sent)

abbrev pub bit : Bool → ℕ
bit true = 1
bit false = 0

-- A call for the turn that has not finished.
abbrev pub live : ℕ → Task → ℕ
live o (persisting_reason r) = bit (eqb r.turn_order o)
live o (checking r) = bit (eqb r.turn_order o)
live o (sending_preliminary r p) = bit (eqb r.turn_order o)
live o (marking_preliminary r) = bit (eqb r.turn_order o)
live o (waiting r) = bit (eqb r.turn_order o)
live o (rechecking r t) = bit (eqb r.turn_order o)
live o (sending_full r p) = bit (eqb r.turn_order o)
live o (reporting_usage r) = bit (eqb r.turn_order o)
live o (marking_full r) = bit (eqb r.turn_order o)
live o finished = 0

-- A call that has sent the turn in full and has not marked it.
abbrev pub held : ℕ → Task → ℕ
held o (reporting_usage r) = bit (eqb r.turn_order o)
held o (marking_full r) = bit (eqb r.turn_order o)
held o _ = 0

-- A call that is about to send the turn in full.
abbrev pub sending : ℕ → Task → ℕ
sending o (sending_full r p) = bit (eqb r.turn_order o)
sending o _ = 0

abbrev pub sum {ℓ} : {A : Type ℓ} → (A → ℕ) → List A → ℕ
sum f [] = 0
sum f (x ∷ xs) = f x + sum f xs

-- The marker of a turn that was sent does not get lost.
abbrev pub MarksIt : Task → Outcome → Type 0
MarksIt (marking_full r) o = o ≡ success
MarksIt _ o = Unit

-- A marker is not overwritten: no archive run that began before it is under way.
abbrev pub IsUndisturbed : {U : Type 0} → Task → World U → Type 0
IsUndisturbed (marking_full r) w = w.runs ≡ []
IsUndisturbed _ w = Unit

-- A step with care: a call for a turn is spawned when no other is under way, a marker that is due is
-- set, while no archive run is under way, and the process does not restart before it is.
abbrev pub IsCareful : {U : Type 0} (s t : System U) → Step s t → Type 0
IsCareful _ _ (spawned w ts r) = sum (live r.turn_order) ts ≡ 0
IsCareful _ _ (went_on w ts us t o) = MarksIt t o × IsUndisturbed t w
IsCareful _ _ (archive_began w ts s i) = Unit
IsCareful _ _ (archive_saved w ts xs ys a) = Unit
IsCareful _ _ (archive_ended w ts xs ys a) = Unit
IsCareful _ _ (heard w ts e) = Unit
IsCareful _ _ (used w ts u) = Unit
IsCareful _ _ (restarted w ts) = (o : ℕ) → sum (held o) ts ≡ 0

pub data CarefulReach {U : Type 0} : System U → System U → Type 0 where
  here : (s : System U) → CarefulReach s s
  further :
      (s t u : System U) → CarefulReach s t → (p : Step t u) → IsCareful t u p → CarefulReach s u
