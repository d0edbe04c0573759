-- ===== src/Realtime/Publisher/Weights.antt =====
-- What one call adds to the events and the markers of a turn.
use voxenta_agentic_ai.Prelude.{
  ℕ, ◌+◌, ◌≤◌, ◌≡◌, refl, sym, Bool, true, false, Option, none, some, List, [], ◌∷◌, ◌++◌, mem,
  ℕ_eq, arith, length, eqb, eqb_iff, if◌then◌else◌, inl, inr, Bool-cases, ap,
}
use voxenta_agentic_ai.Realtime.Turn.{Turn}
use voxenta_agentic_ai.Realtime.Checkpoint.{Values, find_turn}
use voxenta_agentic_ai.Realtime.Processor.{PublishRequest}
use voxenta_agentic_ai.Realtime.Publisher.{
  AnswerTurnPayload, Phase, full, Sent, World, Task, persisting_reason, checking,
  sending_preliminary, marking_preliminary, waiting, rechecking, sending_full, reporting_usage,
  marking_full, finished, Outcome, success, failure, exhausted, step, check, look, recheck,
  build_preliminary_turn, build_answer_turn_payload,
}
use voxenta_agentic_ai.Realtime.Publisher.Marks.{TaskIsSound, report_usage-sent}
use voxenta_agentic_ai.Realtime.Publisher.Careful.{times_sent, bit, live, held, sending, MarksIt}

-- What holds of a turn: `l`, `h` and `n` count the calls that are live, that hold it, and that are about
-- to send it.
pub record Counts {U : Type 0} (o l h n : ℕ) (w : World U) : Type 0 where
  pub one : l ≤ 1
  pub parts : h + n ≤ l
  pub fresh : times_sent full o w.sent + n ≤ 1
  pub covered : times_sent full o w.sent ≤ bit (mem w.values.published_turn_orders o) + h

pub times_sent-append :
    (p : Phase) (o : ℕ) (xs ys : List Sent)
    → times_sent p o (xs ++ ys) ≡ times_sent p o xs + times_sent p o ys
times_sent-append p o [] ys = ground arith
times_sent-append p o (x ∷ xs) ys = ground (arith, times_sent-append p o xs ys)

pub keeps :
    {U : Type 0} {k l h n : ℕ} {w : World U} (l' : ℕ) (w' : World U)
    → Counts k l h n w
    → l' ≤ l
    → h + n ≤ l'
    → times_sent full k w'.sent ≡ times_sent full k w.sent
    → mem w'.values.published_turn_orders k ≡ mem w.values.published_turn_orders k
    → Counts k l' h n w'
keeps l' w' c a b sent published = record {
  one = omega (arith, c.one);
  parts = b;
  fresh = rw sent c.fresh;
  covered = rw (sent, published) c.covered;
}

-- A call that does no more than read is as live as before, or it has finished.
abbrev pub Quiet : ℕ → PublishRequest → Task → Type 0
Quiet k r t = (live k t ≤ bit (eqb r.turn_order k)) × (held k t ≡ 0) × (sending k t ≡ 0)

either_way :
    (k : ℕ) (r : PublishRequest) (b : Bool) (t u : Task)
    → Quiet k r t
    → Quiet k r u
    → Quiet k r (if b then t else u)
either_way k r true t u x y = x
either_way k r false t u x y = y

check-Quiet : (k : ℕ) (r : PublishRequest) (v : Values) → Quiet k r (check r v)
unfolding check
check-Quiet k r v =
    either_way k r (mem v.published_turn_orders r.turn_order) finished _ (omega arith, refl, refl)
      (either_way k r (mem v.preliminary_turn_orders r.turn_order) (waiting r) _
        (omega arith, refl, refl) (go (build_preliminary_turn v r)))
  where
    go :
        (o : Option Turn)
        → Quiet k r (elim o [
          | none ↦ waiting r
          | some t ↦ sending_preliminary r (build_answer_turn_payload t r none)
        ])
    go none = (omega arith, refl, refl)
    go (some t) = (omega arith, refl, refl)

look-Quiet : (k : ℕ) (r : PublishRequest) (v : Values) → Quiet k r (look r v)
unfolding look
look-Quiet k r v = go (find_turn r.turn_order v.turns)
  where
    go : (o : Option Turn) → Quiet k r (elim o [ none ↦ waiting r | some t ↦ rechecking r t ])
    go none = (omega arith, refl, refl)
    go (some t) = (omega arith, refl, refl)

pub bit_le : (b : Bool) → bit b ≤ 1
bit_le true = omega arith
bit_le false = omega arith

one_marked :
    (k o : ℕ) (marked : List ℕ) → mem marked o ≡ false → bit (eqb o k) + bit (mem marked k) ≤ 1
one_marked k o marked h = elim (Bool-cases (eqb o k)) [
  | inl e ↦
      let same : o ≡ k = (eqb_iff o k).0 e in rw (sym same, h) (omega (arith, bit_le (eqb o o)))
  | inr e ↦ rw e (omega (arith, bit_le (mem marked k)))
]

-- Reading once more, a call comes to send only if the turn is not marked.
recheck-weights :
    (k : ℕ) (r : PublishRequest) (t : Turn) (v : Values)
    → (live k (recheck r t v) ≤ bit (eqb r.turn_order k))
      × (held k (recheck r t v) ≡ 0)
      × (sending k (recheck r t v) ≤ live k (recheck r t v))
      × (sending k (recheck r t v) + bit (mem v.published_turn_orders k) ≤ 1)
unfolding recheck
recheck-weights k r t v = elim (Bool-cases (mem v.published_turn_orders r.turn_order)) [
  | inl e ↦
      rw (e, recheck)
        (omega arith, refl, omega arith, omega (arith, bit_le (mem v.published_turn_orders k)))
  | inr e ↦
      rw (e, recheck)
        (omega arith, refl, omega arith, one_marked k r.turn_order v.published_turn_orders e)
]

reading_step :
    {U : Type 0} (k : ℕ) (r : PublishRequest) (t : Task) (w : World U) (l h n : ℕ)
    → h + n ≤ l
    → Counts k (l + bit (eqb r.turn_order k)) (h + 0) (n + 0) w
    → Quiet k r t
    → Counts k (l + live k t) (h + held k t) (n + sending k t) w
reading_step k r t w l h n x c q = record {
  one = omega (arith, c.one, q.0);
  parts = omega (arith, x, q.1, q.2);
  fresh = omega (arith, c.fresh, q.2);
  covered = omega (arith, c.covered, q.1);
}

dropped :
    {U : Type 0} (k : ℕ) (w : World U) (l h n a m : ℕ)
    → h + n ≤ l
    → Counts k (l + a) (h + 0) (n + m) w
    → Counts k (l + 0) (h + 0) (n + 0) w
dropped k w l h n a m x c = record {
  one = omega (arith, c.one);
  parts = omega (arith, x);
  fresh = omega (arith, c.fresh);
  covered = c.covered;
}

abbrev pub full_event : PublishRequest → AnswerTurnPayload → Sent
full_event r p = record { phase = full; payload = p; reason = r.reason }

times_one :
    (k : ℕ) (r : PublishRequest) (p : AnswerTurnPayload)
    → times_sent full k (full_event r p ∷ []) ≡ bit (eqb p.turn_order k)
times_one k r p = go (eqb p.turn_order k)
  where
    go : (b : Bool) → length (if b then full_event r p ∷ [] else []) ≡ bit b
    go true = ground arith
    go false = refl

bits_snoc :
    (xs : List ℕ) (j k : ℕ)
    → (bit (mem xs k) ≤ bit (mem (xs ++ j ∷ []) k)) × (bit (eqb j k) ≤ bit (mem (xs ++ j ∷ []) k))
unfolding mem
bits_snoc [] j k = ground arith
bits_snoc (i ∷ xs) j k = ground (arith, bits_snoc xs j k)

-- A step of the call `t`, where `l`, `h` and `n` count the others.
pub step-Counts :
    {U : Type 0} (k : ℕ) (o : Outcome) (t : Task) (w : World U) (l h n : ℕ)
    → TaskIsSound w.sent t
    → MarksIt t o
    → h + n ≤ l
    → Counts k (l + live k t) (h + held k t) (n + sending k t) w
    → let (t', w') = step o t w in Counts k (l + live k t') (h + held k t') (n + sending k t') w'
unfolding step
step-Counts k success (persisting_reason r) w l h n a b x c =
    keeps (l + live k (checking r)) _ c (omega arith) (omega (arith, c.parts)) refl refl
step-Counts k success (checking r) w l h n a b x c =
    reading_step k r (check r w.values) w l h n x c (check-Quiet k r w.values)
step-Counts k success (sending_preliminary r p) w l h n a b x c =
    keeps (l + live k (marking_preliminary r)) _ c (omega arith) (omega (arith, c.parts))
      (omega (arith, times_sent-append full k w.sent (_ ∷ []))) refl
step-Counts k success (marking_preliminary r) w l h n a b x c =
    keeps (l + live k (waiting r)) _ c (omega arith) (omega (arith, c.parts)) refl refl
step-Counts k success (waiting r) w l h n a b x c =
    reading_step k r (look r w.values) w l h n x c (look-Quiet k r w.values)
step-Counts k success (rechecking r t) w l h n a b x c =
    let (alive, holds, sends, unmarked) = recheck-weights k r t w.values in
    record {
      one = omega (arith, c.one, alive);
      parts = omega (arith, x, holds, sends);
      fresh = omega (arith, c.one, c.parts, c.fresh, c.covered, alive, sends, unmarked, x);
      covered = omega (arith, c.covered, holds);
    }
step-Counts k success (sending_full r p) w l h n a b x c =
    let sent = full_event r p in
    let more = times_sent-append full k w.sent (sent ∷ []) in
    let one : times_sent full k (sent ∷ []) ≡ bit (eqb r.turn_order k) =
      rw (sym a) (times_one k r p) in
    record {
      one = c.one;
      parts = omega (arith, x);
      fresh = omega (arith, c.fresh, more, one);
      covered = omega (arith, c.covered, more, one);
    }
step-Counts k success (marking_full r) w l h n a b x c =
    let (old, new) = bits_snoc w.values.published_turn_orders r.turn_order k in
    record {
      one = omega (arith, c.one);
      parts = omega (arith, x);
      fresh = omega (arith, c.fresh);
      covered = omega (arith, c.one, c.parts, c.fresh, c.covered, old, new, x);
    }
step-Counts k success finished w l h n a b x c = c
step-Counts k o (reporting_usage r) w l h n a b x c =
    let (sent, values) = report_usage-sent o r w in
    keeps (l + live k (marking_full r)) _ c (omega arith) (omega (arith, c.parts))
      (ap (times_sent full k) sent) (ap (λ v. mem v.published_turn_orders k) values)
step-Counts k failure (persisting_reason r) w l h n a b x c =
    keeps (l + live k (checking r)) _ c (omega arith) (omega (arith, c.parts)) refl refl
step-Counts k exhausted (persisting_reason r) w l h n a b x c =
    keeps (l + live k (checking r)) _ c (omega arith) (omega (arith, c.parts)) refl refl
step-Counts k failure (marking_full r) w l h n a b x c = absurd (ground arith)
step-Counts k exhausted (marking_full r) w l h n a b x c = absurd (ground arith)
step-Counts k failure t w l h n a b x c = dropped k w l h n _ _ x c
step-Counts k exhausted t w l h n a b x c = dropped k w l h n _ _ x c
