-- ===== src/Realtime/Checkpoint/Poll.antt =====
-- `wait_for_turn` of src/infra/database/archive_store.py, and the limit that src/realtime/background.py
-- sets on the task that waits. The store is a function of the time since the wait began.
use voxenta_agentic_ai.Prelude.{
  ℕ, zero, suc, ◌+◌, ◌≤◌, ◌<◌, ◌≡◌, ◌≢◌, refl, Option, none, some, List, [], ◌∷◌, Text, leb, inl,
  inr, if◌then◌else◌, arith, All, Bool-cases,
}
use voxenta_agentic_ai.Realtime.Turn.{Turn}
use voxenta_agentic_ai.Realtime.Checkpoint.{Store, wait_for_turn_once}

abbrev pub replicate {ℓ} : {A : Type ℓ} → ℕ → A → List A
replicate zero a = []
replicate (suc n) a = a ∷ replicate n a

-- `_ARCHIVE_CATCHUP_RETRY_DELAYS_SECONDS`, in milliseconds
abbrev pub archive_catchup_retry_delays : List ℕ
archive_catchup_retry_delays = 300 ∷ 300 ∷ 500 ∷ 500 ∷ 1000 ∷ 1000 ∷ 1500 ∷ 1500 ∷ replicate 42 2000

-- Sleep, look, and go on unless the turn is there. The result is the turn and when it was seen.
unfoldable pub poll : (ℕ → Option Turn) → ℕ → List ℕ → Option (Turn × ℕ)
poll seen now [] = none
poll seen now (delay ∷ delays) =
    let rest = poll seen (now + delay) delays in
    elim (seen (now + delay)) [ some turn ↦ some (turn, now + delay) | none ↦ rest ]

unfoldable pub wait_for_turn : (ℕ → Store) → Text → ℕ → Option (Turn × ℕ)
unfolding poll wait_for_turn_once
wait_for_turn store answer_id order =
    poll (λ t. wait_for_turn_once answer_id order (store t)) 0 (0 ∷ archive_catchup_retry_delays)

-- `DEFAULT_TASK_TIMEOUT_SECONDS`, in milliseconds
abbrev pub default_task_timeout : ℕ
default_task_timeout = 30_000

-- `asyncio.wait_for(coro, timeout)` around the wait: a turn that is seen later is not returned, the task
-- is cancelled before.
unfoldable pub guarded : ℕ → Option (Turn × ℕ) → Option Turn
guarded timeout none = none
guarded timeout (some (turn, seen_at)) = if leb seen_at timeout then some turn else none

abbrev pub total : List ℕ → ℕ
total [] = 0
total (d ∷ ds) = d + total ds

-- The turn is there from `landing` on, and not before.
pub record Lands (seen : ℕ → Option Turn) (landing : ℕ) (turn : Turn) : Type 0 where
  pub before : (t : ℕ) → t < landing → seen t ≡ none
  pub behind : (t : ℕ) → landing ≤ t → seen t ≡ some turn

poll_finds :
    (seen : ℕ → Option Turn) (landing : ℕ) (turn : Turn) (now cap : ℕ) (delays : List ℕ)
    → Lands seen landing turn
    → All (λ d. d ≤ cap) delays
    → now ≤ landing
    → landing ≤ now + total delays
    → 0 < total delays
    → (t : ℕ) × (poll seen now delays ≡ some (turn, t)) × (landing ≤ t) × (t ≤ landing + cap)
unfolding poll
poll_finds seen landing turn now cap [] l a h k p = absurd (omega arith)
poll_finds seen landing turn now cap (d ∷ ds) l a h k p =
    elim (Bool-cases (leb landing (now + d))) [
      | inl there ↦ (now + d, ground (arith, l.behind (now + d)), ground arith, ground (arith, a.0))
      | inr later ↦
          let (t, found, low, high) =
            poll_finds seen landing turn (now + d) cap ds l a.1 (ground arith) (ground arith)
              (ground arith) in
          (t, ground (arith, l.before (now + d), found), low, high)
    ]

poll_misses :
    (seen : ℕ → Option Turn) (now : ℕ) (delays : List ℕ)
    → ((t : ℕ) → seen t ≡ none)
    → poll seen now delays ≡ none
unfolding poll
poll_misses seen now [] h = refl
poll_misses seen now (d ∷ ds) h = ground (arith, h (now + d), poll_misses seen (now + d) ds h)

module _ (store : ℕ → Store) (answer_id : Text) (order : ℕ) where
  -- A turn that lands in the checkpoint within 90.6 seconds is returned no later than two seconds
  -- behind its landing. If it never lands, the wait ends with nothing.
  pub wait_for_turn_lem :
      ((landing : ℕ) (turn : Turn)
        → Lands (λ t. wait_for_turn_once answer_id order (store t)) landing turn
        → landing ≤ 90_600
        → (t : ℕ) × (wait_for_turn store answer_id order ≡ some (turn, t))
          × (landing ≤ t)
          × (t ≤ landing + 2000))
      × (((t : ℕ) → wait_for_turn_once answer_id order (store t) ≡ none)
          → wait_for_turn store answer_id order ≡ none)
  unfolding wait_for_turn
  wait_for_turn_lem = (
    λ landing turn l k.
        poll_finds (λ t. wait_for_turn_once answer_id order (store t)) landing turn 0 2000
          (0 ∷ archive_catchup_retry_delays) l (omega arith) (omega arith) (omega arith)
          (omega arith),
    λ h.
        poll_misses (λ t. wait_for_turn_once answer_id order (store t)) 0
          (0 ∷ archive_catchup_retry_delays) h,
  )

  -- Under the default timeout of a background task the wait does not reach its end: a turn that lands
  -- within 28 seconds is returned, and one that lands between 30 and 90.6 seconds is found by the wait,
  -- but the task that waits has been cancelled before.
  pub guarded-wait_for_turn :
      (landing : ℕ) (turn : Turn)
      → Lands (λ t. wait_for_turn_once answer_id order (store t)) landing turn
      → (landing ≤ 28_000
          → guarded default_task_timeout (wait_for_turn store answer_id order) ≡ some turn)
        × (default_task_timeout < landing
            → landing ≤ 90_600
            → (wait_for_turn store answer_id order ≢ none)
              × (guarded default_task_timeout (wait_for_turn store answer_id order) ≡ none))
  unfolding guarded
  guarded-wait_for_turn landing turn l = (
    λ early.
        let (t, found, low, high) = wait_for_turn_lem.0 landing turn l (omega arith) in
        ground (arith, found),
    λ late k.
        let (t, found, low, high) = wait_for_turn_lem.0 landing turn l k in
        (λ e. cc (found, e), ground (arith, found)),
  )
