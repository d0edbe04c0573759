-- ===== src/Realtime/Publisher/Once.antt =====
-- Each turn is sent in full at most once, under the steps of Careful.
use voxenta_agentic_ai.Prelude.{
  All, ℕ, ◌∙◌, sym, ◌+◌, ◌≤◌, ◌≡◌, refl, List, [], ◌∷◌, ◌++◌, mem, ℕ_eq, arith, eqb, eqb_iff, inl,
  inr, Bool-cases, Bool,
}
use voxenta_agentic_ai.Realtime.Checkpoint.{persist_realtime_transcript}
use voxenta_agentic_ai.Realtime.Archive.Channels.{archive_turn-SameReads, first-SameReads}
use mathlib.Core.Path.{subst}
use voxenta_agentic_ai.Realtime.Processor.{PublishRequest}
use voxenta_agentic_ai.Realtime.Publisher.{
  full, World, System, Task, persisting_reason, checking, sending_preliminary, marking_preliminary,
  waiting, rechecking, finished, success, failure, exhausted, ArchiveRun, first_checkpoint,
  last_checkpoint, sending_full, reporting_usage, marking_full, Outcome, step, Step, spawned,
  went_on, archive_began, archive_saved, archive_ended, persist_reason, mark_preliminary, heard,
  used, restarted,
}
use voxenta_agentic_ai.Realtime.Publisher.Marks.{
  IsSound, TaskIsSound, Step-IsSound, All-split, All-without, step-runs, report_usage-sent,
}
use voxenta_agentic_ai.Realtime.Publisher.Careful.{
  here, further, times_sent, bit, live, held, sending, sum, MarksIt, IsUndisturbed, IsCareful,
  CarefulReach,
}
use voxenta_agentic_ai.Realtime.Publisher.Weights.{Counts, keeps, bit_le, step-Counts}

abbrev OnceAt : {U : Type 0} → ℕ → System U → Type 0
OnceAt k s =
    Counts k (sum (live k) s.tasks) (sum (held k) s.tasks) (sum (sending k) s.tasks) s.world

-- The archive runs under way hold the marker of the turn if the checkpoint has it.
abbrev AgreesWith : ℕ → Bool → ArchiveRun → Type 0
AgreesWith k b a = mem a.values.published_turn_orders k ≡ b

abbrev Agrees : {U : Type 0} → ℕ → World U → Type 0
Agrees k w = All (AgreesWith k (mem w.values.published_turn_orders k)) w.runs

All-AgreesWith :
    (k : ℕ) (b c : Bool) (rs : List ArchiveRun)
    → b ≡ c
    → All (AgreesWith k b) rs
    → All (AgreesWith k c) rs
All-AgreesWith k b c rs e h = subst (λ b. All (AgreesWith k b) rs) e h

step-Agrees :
    {U : Type 0} (k : ℕ) (o : Outcome) (t : Task) (w : World U)
    → IsUndisturbed t w
    → Agrees k w
    → Agrees k (step o t w).1
unfolding step persist_reason mark_preliminary
step-Agrees k success (persisting_reason r) w u a = a
step-Agrees k success (checking r) w u a = a
step-Agrees k success (sending_preliminary r p) w u a = a
step-Agrees k success (marking_preliminary r) w u a = a
step-Agrees k success (waiting r) w u a = a
step-Agrees k success (rechecking r t) w u a = a
step-Agrees k success (sending_full r p) w u a = a
step-Agrees k success (marking_full r) w u a = rw u tt
step-Agrees k success finished w u a = a
step-Agrees k o (reporting_usage r) w u a =
    rw ((report_usage-sent o r w).1, step-runs o (reporting_usage r) w) a
step-Agrees k failure (persisting_reason r) w u a = a
step-Agrees k exhausted (persisting_reason r) w u a = a
step-Agrees k failure _ w u a = a
step-Agrees k exhausted _ w u a = a

Step-Agrees :
    {U : Type 0} (k : ℕ) (s t : System U) (p : Step s t)
    → IsCareful s t p
    → Agrees k s.world
    → Agrees k t.world
unfolding persist_realtime_transcript first_checkpoint last_checkpoint
Step-Agrees k _ _ (spawned w ts r) b a = a
Step-Agrees k _ _ (went_on w ts us t o) b a = step-Agrees k o t w b.1 a
Step-Agrees k _ _ (archive_began w ts s i) b a = (refl, a)
Step-Agrees k _ _ (archive_saved w ts xs ys r) b a =
    let same = (All-split (AgreesWith k _) xs r ys a).1 in
    All-AgreesWith k _ _ (xs ++ r ∷ ys)
      (sym same ∙ sym ((first-SameReads r.input r.values).published k)) a
Step-Agrees k _ _ (archive_ended w ts xs ys r) b a =
    let (before, same, behind) = All-split (AgreesWith k _) xs r ys a in
    All-AgreesWith k _ _ (xs ++ ys)
      (sym same ∙ sym ((archive_turn-SameReads r.services r.input r.values).published k))
      (All-without (AgreesWith k _) xs ys before behind)
Step-Agrees k _ _ (heard w ts e) b a = a
Step-Agrees k _ _ (used w ts u) b a = a
Step-Agrees k _ _ (restarted w ts) b a = tt

sum_split {ℓ} :
    {A : Type ℓ} (f : A → ℕ) (xs : List A) (x : A) (ys : List A)
    → sum f (xs ++ x ∷ ys) ≡ (sum f xs + sum f ys) + f x
sum_split f [] x ys = omega arith
sum_split f (z ∷ xs) x ys = omega (arith, sum_split f xs x ys)

parts_le : (k : ℕ) (t : Task) → held k t + sending k t ≤ live k t
parts_le k (sending_full r p) = omega arith
parts_le k (reporting_usage r) = omega arith
parts_le k (marking_full r) = omega arith
parts_le k _ = omega arith

parts_le_sum : (k : ℕ) (ts : List Task) → sum (held k) ts + sum (sending k) ts ≤ sum (live k) ts
parts_le_sum k [] = omega arith
parts_le_sum k (t ∷ ts) = omega (arith, parts_le k t, parts_le_sum k ts)

All-at {ℓ κ} :
    {A : Type ℓ} (P : A → Type κ) (xs : List A) (x : A) (ys : List A) → All P (xs ++ x ∷ ys) → P x
All-at P [] x ys h = h.0
All-at P (z ∷ xs) x ys h = All-at P xs x ys h.1

went_on-OnceAt :
    {U : Type 0} (k : ℕ) (w : World U) (ts us : List Task) (t : Task) (o : Outcome)
    → TaskIsSound w.sent t
    → MarksIt t o
    → OnceAt k (record { world = w; tasks = ts ++ t ∷ us })
    → OnceAt k (record { world = (step o t w).1; tasks = ts ++ (step o t w).0 ∷ us })
went_on-OnceAt k w ts us t o a b c =
    let t' = (step o t w).0 in
    rw (sum_split (live k) ts t' us, sum_split (held k) ts t' us, sum_split (sending k) ts t' us)
      (step-Counts k o t w _ _ _ a b (omega (arith, parts_le_sum k ts, parts_le_sum k us)) (
        rw (sum_split (live k) ts t us, sum_split (held k) ts t us, sum_split (sending k) ts t us)
          at (c)))

spawned_one :
    (k : ℕ) (r : PublishRequest) (ts : List Task)
    → sum (live r.turn_order) ts ≡ 0
    → sum (live k) ts ≤ 1
    → bit (eqb r.turn_order k) + sum (live k) ts ≤ 1
spawned_one k r ts b c = elim (Bool-cases (eqb r.turn_order k)) [
  | inl e ↦
      let none_live : sum (live k) ts ≡ 0 = rw ((eqb_iff r.turn_order k).0 e) at (b) in
      omega (arith, bit_le (eqb r.turn_order k))
  | inr e ↦ rw e (omega arith)
]

Step-OnceAt :
    {U : Type 0} (k : ℕ) (s t : System U) (p : Step s t)
    → IsSound s
    → IsCareful s t p
    → Agrees k s.world
    → OnceAt k s
    → OnceAt k t
unfolding persist_realtime_transcript first_checkpoint last_checkpoint
Step-OnceAt k _ _ (spawned w ts r) a b g c = record {
  one = spawned_one k r ts b c.one;
  parts = omega (arith, c.parts);
  fresh = omega (arith, c.fresh);
  covered = omega (arith, c.covered);
}
Step-OnceAt k _ _ (went_on w ts us t o) a b g c =
    went_on-OnceAt k w ts us t o (All-at (TaskIsSound w.sent) ts t us a.tasks) b.0 c
Step-OnceAt k _ _ (archive_began w ts s i) a b g c = keeps _ _ c (omega arith) c.parts refl refl
Step-OnceAt k _ _ (archive_saved w ts xs ys r) a b g c =
    keeps _ _ c (omega arith) c.parts refl
      ((first-SameReads r.input r.values).published k ∙ (All-split (AgreesWith k _) xs r ys g).1)
Step-OnceAt k _ _ (archive_ended w ts xs ys r) a b g c = keeps _ _ c (omega arith) c.parts refl (
    (archive_turn-SameReads r.services r.input r.values).published k
    ∙ (All-split (AgreesWith k _) xs r ys g).1)
Step-OnceAt k _ _ (heard w ts e) a b g c = keeps _ _ c (omega arith) c.parts refl refl
Step-OnceAt k _ _ (used w ts u) a b g c = keeps _ _ c (omega arith) c.parts refl refl
Step-OnceAt k _ _ (restarted w ts) a b g c = record {
  one = omega arith;
  parts = omega arith;
  fresh = omega (arith, c.fresh);
  covered = omega (arith, c.covered, b k);
}

CarefulReach-OnceAt :
    {U : Type 0} (k : ℕ) (s t : System U)
    → CarefulReach s t
    → IsSound s
    → Agrees k s.world
    → OnceAt k s
    → IsSound t × Agrees k t.world × OnceAt k t
CarefulReach-OnceAt k s _ (here _) a g c = (a, g, c)
CarefulReach-OnceAt k s u (further _ t _ p q careful) a g c =
    let (a', g', c') = CarefulReach-OnceAt k s t p a g c in
    (Step-IsSound t u q a', Step-Agrees k t u q careful g', Step-OnceAt k t u q a' careful g' c')

-- Nothing was sent and marked yet, and no call and no archive run is under way.
abbrev pub fresh_system : {U : Type 0} → World U → System U
fresh_system w = record {
  world = record w {
    sent = [];
    runs = [];
    values = record w.values { published_turn_orders = []; preliminary_turn_orders = [] };
  };
  tasks = [];
}

-- Start with nothing sent and nothing marked. If a call for a turn is spawned only when no other call for
-- it is under way, if the marker of a turn that was sent in full is written, at a time when no run of the
-- archive graph for the answer is under way, and if the process does not restart between the two, then each
-- turn is sent in full at most once, in every order of the steps.
pub CarefulReach-once :
    {U : Type 0} (w : World U) (t : System U) (k : ℕ)
    → CarefulReach (fresh_system w) t
    → times_sent full k t.world.sent ≤ 1
unfolding mem
CarefulReach-once w t k p =
    let start : IsSound (fresh_system w) = record {
      marked = record {
        of_preliminary = λ o h. absurd (ground arith);
        of_full = λ o h. absurd (ground arith);
      };
      runs = tt;
      tasks = tt;
    } in
    let counts : OnceAt k (fresh_system w) = record {
      one = omega arith;
      parts = omega arith;
      fresh = omega arith;
      covered = omega arith;
    } in
    omega (arith, (CarefulReach-OnceAt k (fresh_system w) t p start tt counts).2.fresh)
