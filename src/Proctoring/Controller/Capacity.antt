-- ===== src/Proctoring/Controller/Capacity.antt =====
-- The connection limit, and why a session that reconnects is never turned away.
use voxenta_agentic_ai.Prelude.{
  ℕ, ◌+◌, ◌≤◌, ◌≡◌, refl, Bool, true, false, some, inl, inr, Text, text_eq, ℕ_eq, get, put, remove,
  mem, add, discard, get-put, get-remove, mem-add, mem-discard, length, length-discard-le,
  length-discard-mem, length-add-le, arith, Option-cases, Bool-cases, eq_refl, leb,
}
use voxenta_agentic_ai.Proctoring.AlertPolicy.{Settings, Policy, fresh}
use voxenta_agentic_ai.Proctoring.Session.{
  Identity, Registry, Event, register_identity, evict_previous_connection, cleanup_session,
  drop_session, broadcast_event, empty,
}
use voxenta_agentic_ai.Proctoring.Controller.{
  World, ConnectionState, accepted, offer, on_connectionstatechange, cleanup, disconnect_session,
}

-- Every registered connection is counted, and belongs to one session.
pub record IsSound (limit : ℕ) (r : Registry) : Type 0 where
  pub bounded : length r.pcs ≤ limit
  pub counted : (s : Text) (pc : ℕ) → get r.session_map s ≡ some pc → mem r.pcs pc ≡ true
  pub single :
      (s s' : Text) (pc : ℕ)
      → get r.session_map s ≡ some pc
      → get r.session_map s' ≡ some pc
      → s ≡ s'

-- Taking the connection of one session out of both containers.
pub release-IsSound :
    (limit : ℕ) (r : Registry) (s : Text) (pc : ℕ)
    → get r.session_map s ≡ some pc
    → IsSound limit r
    → IsSound limit (record r { session_map = remove r.session_map s; pcs = discard r.pcs pc })
release-IsSound limit r s pc e h = record {
  bounded = omega (arith, length-discard-le r.pcs pc, h.bounded);
  counted = λ s' pc' g. ground (
    arith,
    get-remove r.session_map s s',
    mem-discard r.pcs pc pc',
    h.counted s' pc',
    h.single s s' pc e,
    ℕ_eq.beq_iff pc pc',
    eq_refl s,
  );
  single = λ s' s'' pc' g g'.
      ground
        (arith, get-remove r.session_map s s', get-remove r.session_map s s'', h.single s' s'' pc');
}

-- Forgetting a session whose connection stays counted.
pub forget-IsSound :
    (limit : ℕ) (r : Registry) (s : Text)
    → IsSound limit r
    → IsSound limit (record r { session_map = remove r.session_map s })
forget-IsSound limit r s h = record {
  bounded = h.bounded;
  counted = λ s' pc g. ground (arith, get-remove r.session_map s s', h.counted s' pc);
  single = λ s' s'' pc g g'.
      ground
        (arith, get-remove r.session_map s s', get-remove r.session_map s s'', h.single s' s'' pc);
}

pub evict-IsSound :
    (limit : ℕ) (s : Text) (r : Registry)
    → IsSound limit r
    → IsSound limit (evict_previous_connection s r).1
unfolding evict_previous_connection
evict-IsSound limit s r h = elim (Option-cases (get r.session_map s)) [
  | inl e ↦ rw (e, evict_previous_connection) h
  | inr (pc, e) ↦ rw (e, evict_previous_connection) (release-IsSound limit r s pc e h)
]

-- Registering a connection that is not in use, where there is room.
pub register-IsSound :
    (limit : ℕ) (r : Registry) (s : Text) (pc : ℕ)
    → length r.pcs + 1 ≤ limit
    → mem r.pcs pc ≡ false
    → IsSound limit r
    → IsSound limit (record r { pcs = add r.pcs pc; session_map = put r.session_map s pc })
register-IsSound limit r s pc room unused h = record {
  bounded = omega (arith, length-add-le r.pcs pc);
  counted = λ s' pc' g. ground (
    arith,
    get-put r.session_map s s' pc,
    mem-add r.pcs pc pc',
    h.counted s' pc',
    ℕ_eq.beq_iff pc pc',
  );
  single = λ s' s'' pc' g g'. ground (
    arith,
    get-put r.session_map s s' pc,
    get-put r.session_map s s'' pc,
    h.single s' s'' pc',
    h.counted s' pc,
    h.counted s'' pc,
    text_eq.beq_iff s s',
    text_eq.beq_iff s s'',
  );
}

-- Soundness reads the connections and the sessions' map alone.
pub IsSound-same :
    (limit : ℕ) (r r' : Registry)
    → r'.pcs ≡ r.pcs
    → r'.session_map ≡ r.session_map
    → IsSound limit r
    → IsSound limit r'
IsSound-same limit r r' p m h = record {
  bounded = rw p h.bounded;
  counted = λ s pc g. ground (arith, p, m, h.counted s pc);
  single = λ s s' pc g g'. ground (arith, p, m, h.single s s' pc);
}

mem-evict :
    (s : Text) (r : Registry) (pc : ℕ)
    → mem r.pcs pc ≡ false
    → mem (evict_previous_connection s r).1.pcs pc ≡ false
unfolding evict_previous_connection
mem-evict s r pc h = elim (Option-cases (get r.session_map s)) [
  | inl e ↦ rw (e, evict_previous_connection) h
  | inr (old, e) ↦ rw (e, evict_previous_connection) (ground (arith, mem-discard r.pcs old pc))
]

pub offer-IsSound :
    (cfg : Settings) (s : Text) (i : Identity) (pc : ℕ) (w : World)
    → mem w.registry.pcs pc ≡ false
    → IsSound cfg.max_connections w.registry
    → IsSound cfg.max_connections (offer cfg s i pc w).1.registry
unfolding offer register_identity
offer-IsSound cfg s i pc w unused h =
    let r = (evict_previous_connection s w.registry).1 in
    elim (Bool-cases (leb cfg.max_connections (length r.pcs))) [
      | inl full ↦ rw (full, offer) (evict-IsSound cfg.max_connections s w.registry h)
      | inr free ↦
          rw (free, offer)
            (IsSound-same cfg.max_connections
              (record r { pcs = add r.pcs pc; session_map = put r.session_map s pc }) _ refl refl
              (register-IsSound cfg.max_connections r s pc (ground (arith, free))
                (mem-evict s w.registry pc unused)
                (evict-IsSound cfg.max_connections s w.registry h)))
    ]

cleanup_session-IsSound :
    (limit : ℕ) (close_raises : ℕ → Bool) (s : Text) (r : Registry)
    → IsSound limit r
    → IsSound limit (cleanup_session close_raises s r).1
unfolding cleanup_session drop_session
cleanup_session-IsSound limit close_raises s r h = elim (Option-cases (get r.session_map s)) [
  | inl e ↦
      rw (e, cleanup_session)
        (IsSound-same limit (record r { session_map = remove r.session_map s }) _ refl refl
          (forget-IsSound limit r s h))
  | inr (pc, e) ↦ elim (Bool-cases (close_raises pc)) [
    | inl raised ↦ rw (e, cleanup_session, raised) (forget-IsSound limit r s h)
    | inr closed ↦
        rw (e, cleanup_session, closed)
          (IsSound-same limit
            (record r { session_map = remove r.session_map s; pcs = discard r.pcs pc }) _ refl refl
            (release-IsSound limit r s pc e h))
  ]
]

pub cleanup-IsSound :
    (limit : ℕ) (close_raises : ℕ → Bool) (s : Text) (w : World)
    → IsSound limit w.registry
    → IsSound limit (cleanup close_raises s w).registry
unfolding cleanup
cleanup-IsSound limit close_raises s w h = cleanup_session-IsSound limit close_raises s w.registry h

-- What may happen to the proctoring side: an offer that comes with a new connection, a state of some
-- connection, a forced disconnect, an event, and any work of the alert policy.
pub data Step (cfg : Settings) (close_raises : ℕ → Bool) (w : World) : World → Type 0 where
  offered :
      (s : Text) (i : Identity) (pc : ℕ)
      → mem w.registry.pcs pc ≡ false
      → Step cfg close_raises w (offer cfg s i pc w).1
  state_changed :
      (s : Text) (pc : ℕ) (state : ConnectionState)
      → Step cfg close_raises w (on_connectionstatechange close_raises s pc state w)
  disconnected : (s : Text) → Step cfg close_raises w (disconnect_session close_raises s w).1
  broadcast :
      (s : Text) (e : Event)
      → Step cfg close_raises w (record w { registry = broadcast_event s e w.registry })
  decided : (p : Policy) → Step cfg close_raises w (record w { policy = p })

pub data Reach (cfg : Settings) (close_raises : ℕ → Bool) : World → Type 0 where
  start : Reach cfg close_raises (record { registry = empty; policy = fresh })
  next :
      {w w' : World}
      → Reach cfg close_raises w
      → Step cfg close_raises w w'
      → Reach cfg close_raises w'

module _ (cfg : Settings) (close_raises : ℕ → Bool) where
  Step-IsSound :
      {w w' : World}
      → Step cfg close_raises w w'
      → IsSound cfg.max_connections w.registry
      → IsSound cfg.max_connections w'.registry
  unfolding on_connectionstatechange disconnect_session broadcast_event
  Step-IsSound {w} (offered s i pc unused) h = offer-IsSound cfg s i pc w unused h
  Step-IsSound {w} (state_changed s pc state) h =
      ground (arith, h, cleanup-IsSound cfg.max_connections close_raises s w h)
  Step-IsSound {w} (disconnected s) h =
      ground (arith, h, cleanup-IsSound cfg.max_connections close_raises s w h)
  Step-IsSound {w} (broadcast s e) h = IsSound-same cfg.max_connections w.registry _ refl refl h
  Step-IsSound (decided p) h = h

  -- From the start, whatever happens in whatever order, no more connections than the limit are open,
  -- each session's connection is among those counted, and no two sessions share one.
  pub Reach-IsSound :
      {w : World} → Reach cfg close_raises w → IsSound cfg.max_connections w.registry
  unfolding get
  Reach-IsSound start = record {
    bounded = omega arith;
    counted = λ s pc g. cc;
    single = λ s s' pc g g'. cc;
  }
  Reach-IsSound (next r st) = Step-IsSound st (Reach-IsSound r)

  -- A session that has a connection and sends a new offer is accepted, also when the limit is reached:
  -- the old connection is evicted before the limit is tested.
  pub reconnect_accepted :
      {w : World} (s : Text) (i : Identity) (pc old : ℕ)
      → Reach cfg close_raises w
      → get w.registry.session_map s ≡ some old
      → (offer cfg s i pc w).0 ≡ accepted true
  unfolding offer evict_previous_connection
  reconnect_accepted {w} s i pc old r e =
      let h = Reach-IsSound r in
      ground (arith, h.bounded, h.counted s old e, length-discard-mem w.registry.pcs old)
