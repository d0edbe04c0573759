-- ===== src/Realtime/Publisher/Marks.antt =====
-- The markers in the checkpoint against the events that were sent, under every interleaving.
use voxenta_agentic_ai.Prelude.{
  ℕ, ◌≡◌, refl, sym, ◌⊎◌, Bool, true, false, ◌&&◌, Option, none, some, List, [], ◌∷◌, ◌++◌, any,
  All, mem, ℕ_eq, find?, eqb, eqb_iff, inl, inr, Bool-cases, arith, if◌then◌else◌,
}
use voxenta_agentic_ai.Realtime.Turn.{Turn}
use voxenta_agentic_ai.Realtime.Checkpoint.{Values, find_turn, persist_realtime_transcript}
use voxenta_agentic_ai.Realtime.Archive.Channels.{
  SameReads, archive_turn-SameReads, first-SameReads,
}
use voxenta_agentic_ai.Realtime.Processor.{PublishRequest}
use voxenta_agentic_ai.Realtime.Publisher.{
  Phase, preliminary, full, Sent, World, System, Task, persisting_reason, checking,
  sending_preliminary, marking_preliminary, waiting, rechecking, sending_full, reporting_usage,
  marking_full, finished, Outcome, success, failure, exhausted, step, Step, spawned, went_on,
  archive_began, archive_saved, archive_ended, ArchiveRun, first_checkpoint, last_checkpoint, heard,
  used, restarted, Reach, here, further, check, look, recheck, report_usage, with_values,
  build_answer_turn_payload, build_preliminary_turn, mark_full, mark_preliminary, persist_reason,
}

abbrev pub same_phase : Phase → Phase → Bool
same_phase preliminary preliminary = true
same_phase full full = true
same_phase _ _ = false

-- An event of this phase was sent for the turn.
abbrev pub is_of : Phase → ℕ → Sent → Bool
is_of phase order x = same_phase x.phase phase && eqb x.payload.turn_order order

abbrev pub has_sent : Phase → ℕ → List Sent → Bool
has_sent phase order sent = any (is_of phase order) sent

-- What a call has done by the time it is about to set a marker.
abbrev pub TaskIsSound : List Sent → Task → Type 0
TaskIsSound sent (sending_preliminary r p) = p.turn_order ≡ r.turn_order
TaskIsSound sent (marking_preliminary r) = has_sent preliminary r.turn_order sent ≡ true
TaskIsSound sent (rechecking r t) = t.turn_order ≡ r.turn_order
TaskIsSound sent (sending_full r p) = p.turn_order ≡ r.turn_order
TaskIsSound sent (reporting_usage r) = has_sent full r.turn_order sent ≡ true
TaskIsSound sent (marking_full r) = has_sent full r.turn_order sent ≡ true
TaskIsSound sent _ = Unit

-- Each turn that is marked was sent.
pub record IsMarkedRight {U : Type 0} (w : World U) : Type 0 where
  pub of_preliminary :
      (o : ℕ) → mem w.values.preliminary_turn_orders o ≡ true → has_sent preliminary o w.sent ≡ true
  pub of_full :
      (o : ℕ) → mem w.values.published_turn_orders o ≡ true → has_sent full o w.sent ≡ true

-- The same of a checkpoint that an archive run holds.
abbrev pub Backed : List Sent → Values → Type 0
Backed sent v =
    ((o : ℕ) → mem v.preliminary_turn_orders o ≡ true → has_sent preliminary o sent ≡ true)
    × ((o : ℕ) → mem v.published_turn_orders o ≡ true → has_sent full o sent ≡ true)

abbrev pub RunIsBacked : List Sent → ArchiveRun → Type 0
RunIsBacked sent a = Backed sent a.values

pub record IsSound {U : Type 0} (s : System U) : Type 0 where
  pub marked : IsMarkedRight s.world
  pub runs : All (RunIsBacked s.world.sent) s.world.runs
  pub tasks : All (TaskIsSound s.world.sent) s.tasks

has_sent-append :
    (p : Phase) (o : ℕ) (xs ys : List Sent)
    → has_sent p o (xs ++ ys) ≡ (if has_sent p o xs then true else has_sent p o ys)
has_sent-append p o [] ys = refl
has_sent-append p o (x ∷ xs) ys = ground (arith, has_sent-append p o xs ys)

has_sent_snoc :
    (p : Phase) (o : ℕ) (xs : List Sent) (x : Sent)
    → is_of p o x ≡ true
    → has_sent p o (xs ++ x ∷ []) ≡ true
has_sent_snoc p o xs x h = ground (arith, has_sent-append p o xs (x ∷ []))

pub mem_snoc : (xs : List ℕ) (k o : ℕ) → mem (xs ++ k ∷ []) o ≡ true → (mem xs o ≡ true) ⊎ (k ≡ o)
unfolding mem
mem_snoc [] k o h = inr (ground arith)
mem_snoc (x ∷ xs) k o h = elim (Bool-cases (eqb x o)) [
  | inl e ↦ inl (ground arith)
  | inr e ↦ elim (mem_snoc xs k o (ground arith)) [ inl l ↦ inl (ground arith) | inr l ↦ inr l ]
]

-- More is sent.
abbrev Grows : List Sent → List Sent → Type 0
Grows a b = (p : Phase) (o : ℕ) → has_sent p o a ≡ true → has_sent p o b ≡ true

TaskIsSound-Grows : (t : Task) (a b : List Sent) → Grows a b → TaskIsSound a t → TaskIsSound b t
TaskIsSound-Grows (persisting_reason r) a b g h = tt
TaskIsSound-Grows (checking r) a b g h = tt
TaskIsSound-Grows (sending_preliminary r p) a b g h = h
TaskIsSound-Grows (marking_preliminary r) a b g h = g preliminary r.turn_order h
TaskIsSound-Grows (waiting r) a b g h = tt
TaskIsSound-Grows (rechecking r t) a b g h = h
TaskIsSound-Grows (sending_full r p) a b g h = h
TaskIsSound-Grows (reporting_usage r) a b g h = g full r.turn_order h
TaskIsSound-Grows (marking_full r) a b g h = g full r.turn_order h
TaskIsSound-Grows finished a b g h = tt

All-Grows :
    (ts : List Task) (a b : List Sent) → Grows a b → All (TaskIsSound a) ts → All (TaskIsSound b) ts
All-Grows [] a b g h = tt
All-Grows (t ∷ ts) a b g h = (TaskIsSound-Grows t a b g h.0, All-Grows ts a b g h.1)

RunIsBacked-Grows :
    (rs : List ArchiveRun) (a b : List Sent)
    → Grows a b
    → All (RunIsBacked a) rs
    → All (RunIsBacked b) rs
RunIsBacked-Grows [] a b g h = tt
RunIsBacked-Grows (r ∷ rs) a b g ((p, f), h) =
    ((λ o k. g preliminary o (p o k), λ o k. g full o (f o k)), RunIsBacked-Grows rs a b g h)

-- A call does not touch the archive runs.
pub step-runs : {U : Type 0} (o : Outcome) (t : Task) (w : World U) → (step o t w).1.runs ≡ w.runs
unfolding step report_usage
step-runs success (persisting_reason r) w = refl
step-runs success (checking r) w = refl
step-runs success (sending_preliminary r p) w = refl
step-runs success (marking_preliminary r) w = refl
step-runs success (waiting r) w = refl
step-runs success (rechecking r t) w = refl
step-runs success (sending_full r p) w = refl
step-runs success (marking_full r) w = refl
step-runs success finished w = refl
step-runs o (reporting_usage r) w = ground arith
step-runs failure (persisting_reason r) w = refl
step-runs exhausted (persisting_reason r) w = refl
step-runs failure _ w = refl
step-runs exhausted _ w = refl

build_preliminary_turn-order :
    (v : Values) (r : PublishRequest) (t : Turn)
    → build_preliminary_turn v r ≡ some t
    → t.turn_order ≡ r.turn_order
unfolding build_preliminary_turn
build_preliminary_turn-order v r t h = ground arith

-- A step of a call: what is sent stays sent, the markers stay right, and so does the call.
record Kept {U : Type 0} (w w' : World U) (t' : Task) : Type 0 where
  grows : Grows w.sent w'.sent
  marked : IsMarkedRight w'
  task : TaskIsSound w'.sent t'

unchanged_step :
    {U : Type 0} (w : World U) (t : Task) → IsMarkedRight w → TaskIsSound w.sent t → Kept w w t
unchanged_step w t m h = record { grows = λ p o k. k; marked = m; task = h }

pub find?-holds {ℓ} :
    {A : Type ℓ} (p : A → Bool) (xs : List A) (x : A) → find? p xs ≡ some x → p x ≡ true
find?-holds p [] x h = absurd (ground arith)
find?-holds p (y ∷ xs) x h = ground (arith, find?-holds p xs x)

sound_if :
    (sent : List Sent) (b : Bool) (t u : Task)
    → TaskIsSound sent t
    → TaskIsSound sent u
    → TaskIsSound sent (if b then t else u)
sound_if sent true t u h k = h
sound_if sent false t u h k = k

check-TaskIsSound :
    (r : PublishRequest) (v : Values) (sent : List Sent) → TaskIsSound sent (check r v)
unfolding check build_answer_turn_payload
check-TaskIsSound r v sent =
    sound_if sent (mem v.published_turn_orders r.turn_order) finished _ tt (
      sound_if sent (mem v.preliminary_turn_orders r.turn_order) (waiting r) _ tt
        (go (build_preliminary_turn v r) (λ t. build_preliminary_turn-order v r t)))
  where
    go :
        (o : Option Turn)
        → ((t : Turn) → o ≡ some t → t.turn_order ≡ r.turn_order)
        → TaskIsSound sent (elim o [
          | none ↦ waiting r
          | some t ↦ sending_preliminary r (build_answer_turn_payload t r none)
        ])
    go none h = tt
    go (some t) h = h t refl

look-TaskIsSound :
    (r : PublishRequest) (v : Values) (sent : List Sent) → TaskIsSound sent (look r v)
unfolding look find_turn
look-TaskIsSound r v sent =
    go (find? (λ t. eqb t.turn_order r.turn_order) v.turns)
      (λ t. find?-holds (λ t. eqb t.turn_order r.turn_order) v.turns t)
  where
    go :
        (o : Option Turn)
        → ((t : Turn) → o ≡ some t → eqb t.turn_order r.turn_order ≡ true)
        → TaskIsSound sent (elim o [ none ↦ waiting r | some t ↦ rechecking r t ])
    go none h = tt
    go (some t) h = (eqb_iff t.turn_order r.turn_order).0 (h t refl)

recheck-TaskIsSound :
    (r : PublishRequest) (t : Turn) (v : Values) (sent : List Sent)
    → t.turn_order ≡ r.turn_order
    → TaskIsSound sent (recheck r t v)
unfolding recheck build_answer_turn_payload
recheck-TaskIsSound r t v sent h =
    sound_if sent (mem v.published_turn_orders r.turn_order) finished _ tt h

send-Kept :
    {U : Type 0} (w : World U) (t : Task) (x : Sent)
    → IsMarkedRight w
    → TaskIsSound (w.sent ++ x ∷ []) t
    → Kept w (record w { sent = w.sent ++ x ∷ [] }) t
send-Kept w t x m h = record {
  grows = λ p o k. ground (arith, has_sent-append p o w.sent (x ∷ []));
  marked = record {
    of_preliminary =
        λ o k. ground (arith, has_sent-append preliminary o w.sent (x ∷ []), m.of_preliminary o);
    of_full = λ o k. ground (arith, has_sent-append full o w.sent (x ∷ []), m.of_full o);
  };
  task = h;
}

pub report_usage-sent :
    {U : Type 0} (o : Outcome) (r : PublishRequest) (w : World U)
    → ((report_usage o r w).sent ≡ w.sent) × ((report_usage o r w).values ≡ w.values)
unfolding report_usage
report_usage-sent o r w = ground arith

report-Kept :
    {U : Type 0} (o : Outcome) (r : PublishRequest) (w : World U)
    → IsMarkedRight w
    → has_sent full r.turn_order w.sent ≡ true
    → Kept w (report_usage o r w) (marking_full r)
report-Kept o r w m h =
    let (sent, values) = report_usage-sent o r w in
    record {
      grows = λ p z k. rw sent k;
      marked = record {
        of_preliminary = λ z k. rw sent (m.of_preliminary z (rw values at (k)));
        of_full = λ z k. rw sent (m.of_full z (rw values at (k)));
      };
      task = rw sent h;
    }

mark_preliminary-Kept :
    {U : Type 0} (r : PublishRequest) (w : World U)
    → IsMarkedRight w
    → has_sent preliminary r.turn_order w.sent ≡ true
    → Kept w (with_values (mark_preliminary r.turn_order w.values) w) (waiting r)
unfolding mark_preliminary
mark_preliminary-Kept r w m h = record {
  grows = λ p o k. k;
  marked = record {
    of_preliminary = λ o k. elim (mem_snoc w.values.preliminary_turn_orders r.turn_order o k) [
      | inl old ↦ m.of_preliminary o old
      | inr e ↦ rw (sym e) h
    ];
    of_full = m.of_full;
  };
  task = tt;
}

mark_full-Kept :
    {U : Type 0} (r : PublishRequest) (w : World U)
    → IsMarkedRight w
    → has_sent full r.turn_order w.sent ≡ true
    → Kept w (with_values (mark_full r.turn_order w.values) w) finished
unfolding mark_full
mark_full-Kept r w m h = record {
  grows = λ p o k. k;
  marked = record {
    of_preliminary = m.of_preliminary;
    of_full = λ o k. elim (mem_snoc w.values.published_turn_orders r.turn_order o k) [
      | inl old ↦ m.of_full o old
      | inr e ↦ rw (sym e) h
    ];
  };
  task = tt;
}

step-Kept :
    {U : Type 0} (o : Outcome) (t : Task) (w : World U)
    → IsMarkedRight w
    → TaskIsSound w.sent t
    → Kept w (step o t w).1 (step o t w).0
unfolding step persist_reason
step-Kept success (persisting_reason r) w m h = record {
  grows = λ p o k. k;
  marked = record { of_preliminary = m.of_preliminary; of_full = m.of_full };
  task = tt;
}
step-Kept success (checking r) w m h = unchanged_step w _ m (check-TaskIsSound r w.values w.sent)
step-Kept success (sending_preliminary r p) w m h =
    send-Kept w (marking_preliminary r) _ m
      (has_sent_snoc preliminary r.turn_order w.sent _ (ground (arith, h)))
step-Kept success (marking_preliminary r) w m h = mark_preliminary-Kept r w m h
step-Kept success (waiting r) w m h = unchanged_step w _ m (look-TaskIsSound r w.values w.sent)
step-Kept success (rechecking r t) w m h =
    unchanged_step w _ m (recheck-TaskIsSound r t w.values w.sent h)
step-Kept success (sending_full r p) w m h =
    send-Kept w (reporting_usage r) _ m
      (has_sent_snoc full r.turn_order w.sent _ (ground (arith, h)))
step-Kept success (marking_full r) w m h = mark_full-Kept r w m h
step-Kept success finished w m h = unchanged_step w finished m tt
step-Kept o (reporting_usage r) w m h = report-Kept o r w m h
step-Kept failure (persisting_reason r) w m h = unchanged_step w (checking r) m tt
step-Kept exhausted (persisting_reason r) w m h = unchanged_step w (checking r) m tt
step-Kept failure _ w m h = unchanged_step w finished m tt
step-Kept exhausted _ w m h = unchanged_step w finished m tt

pub All-split {ℓ κ} :
    {A : Type ℓ} (P : A → Type κ) (xs : List A) (x : A) (ys : List A)
    → All P (xs ++ x ∷ ys)
    → All P xs × P x × All P ys
All-split P [] x ys h = (tt, h.0, h.1)
All-split P (z ∷ xs) x ys h = let (a, b, c) = All-split P xs x ys h.1 in ((h.0, a), b, c)

All-join {ℓ κ} :
    {A : Type ℓ} (P : A → Type κ) (xs : List A) (x : A) (ys : List A)
    → All P xs
    → P x
    → All P ys
    → All P (xs ++ x ∷ ys)
All-join P [] x ys a b c = (b, c)
All-join P (z ∷ xs) x ys a b c = (a.0, All-join P xs x ys a.1 b c)

-- A checkpoint that reads like one whose markers are right has right markers.
SameReads-IsMarkedRight :
    {U : Type 0} (w w' : World U) (v : Values)
    → Backed w.sent v
    → SameReads v w'.values
    → w'.sent ≡ w.sent
    → IsMarkedRight w'
SameReads-IsMarkedRight w w' v (p, f) same e = record {
  of_preliminary = λ o k. rw e (p o (ground (arith, same.preliminary o)));
  of_full = λ o k. rw e (f o (ground (arith, same.published o)));
}

pub All-without {ℓ κ} :
    {A : Type ℓ} (P : A → Type κ) (xs ys : List A) → All P xs → All P ys → All P (xs ++ ys)
All-without P [] ys a b = b
All-without P (x ∷ xs) ys a b = (a.0, All-without P xs ys a.1 b)

pub Step-IsSound : {U : Type 0} (s t : System U) → Step s t → IsSound s → IsSound t
unfolding persist_realtime_transcript first_checkpoint last_checkpoint
Step-IsSound _ _ (spawned w ts r) h = record {
  marked = h.marked;
  runs = h.runs;
  tasks = (tt, h.tasks);
}
Step-IsSound _ _ (went_on w ts us t o) h =
    let (a, b, c) = All-split (TaskIsSound w.sent) ts t us h.tasks in
    let kept = step-Kept o t w h.marked b in
    let sent = (step o t w).1.sent in
    record {
      marked = kept.marked;
      runs = rw (step-runs o t w) (RunIsBacked-Grows w.runs w.sent sent kept.grows h.runs);
      tasks =
          All-join (TaskIsSound sent) ts (step o t w).0 us (All-Grows ts w.sent sent kept.grows a)
            kept.task (All-Grows us w.sent sent kept.grows c);
    }
Step-IsSound _ _ (archive_began w ts s i) h = record {
  marked = record { of_preliminary = h.marked.of_preliminary; of_full = h.marked.of_full };
  runs = ((h.marked.of_preliminary, h.marked.of_full), h.runs);
  tasks = h.tasks;
}
Step-IsSound _ _ (archive_saved w ts xs ys a) h = record {
  marked =
      SameReads-IsMarkedRight w (record w { runs = xs ++ a ∷ ys; values = first_checkpoint a })
        a.values (All-split (RunIsBacked w.sent) xs a ys h.runs).1
        (first-SameReads a.input a.values) refl;
  runs = h.runs;
  tasks = h.tasks;
}
Step-IsSound _ _ (archive_ended w ts xs ys a) h =
    let (before, backed, behind) = All-split (RunIsBacked w.sent) xs a ys h.runs in
    record {
      marked =
          SameReads-IsMarkedRight w (record w { runs = xs ++ ys; values = last_checkpoint a })
            a.values backed (archive_turn-SameReads a.services a.input a.values) refl;
      runs = All-without (RunIsBacked w.sent) xs ys before behind;
      tasks = h.tasks;
    }
Step-IsSound _ _ (heard w ts e) h = record {
  marked = record { of_preliminary = h.marked.of_preliminary; of_full = h.marked.of_full };
  runs = h.runs;
  tasks = h.tasks;
}
Step-IsSound _ _ (used w ts u) h = record {
  marked = record { of_preliminary = h.marked.of_preliminary; of_full = h.marked.of_full };
  runs = h.runs;
  tasks = h.tasks;
}
Step-IsSound _ _ (restarted w ts) h = record {
  marked = record { of_preliminary = h.marked.of_preliminary; of_full = h.marked.of_full };
  runs = tt;
  tasks = tt;
}

pub Reach-IsSound_of : {U : Type 0} (s t : System U) → IsSound s → Reach s t → IsSound t
Reach-IsSound_of s _ h (here _) = h
Reach-IsSound_of s u h (further _ t _ p q) = Step-IsSound t u q (Reach-IsSound_of s t h p)

-- Start with no call and no archive run under way and with markers that are right. Whatever the calls for the
-- answer do, in any order, with failures, runs of the archive graph that overwrite the checkpoint with what
-- they read at their start, and restarts of the process: a turn is marked as published, in full or from its
-- live transcript, only if an event of that kind was sent for it.
pub Reach-IsMarkedRight :
    {U : Type 0} (w : World U) (t : System U)
    → IsMarkedRight w
    → Reach (record { world = record w { runs = [] }; tasks = [] }) t
    → IsMarkedRight t.world
Reach-IsMarkedRight w t m p =
    let start : IsSound (record { world = record w { runs = [] }; tasks = [] }) = record {
      marked = record { of_preliminary = m.of_preliminary; of_full = m.of_full };
      runs = tt;
      tasks = tt;
    } in
    (Reach-IsSound_of _ t start p).marked
