-- ===== src/Proctoring/Controller/Reconnect.antt =====
-- A reconnect in the middle of an exam, and the end of a session.
use voxenta_agentic_ai.Prelude.{
  ℕ, ◌≡◌, ◌≢◌, Bool, true, false, none, some, inl, inr, Text, text_eq, ℕ_eq, get, get-put,
  get-remove, ◌==◌, if◌then◌else◌, arith, Option-cases, eq_refl,
}
use voxenta_agentic_ai.Proctoring.AlertPolicy.{Settings}
use voxenta_agentic_ai.Proctoring.AlertPolicy.Spec.{slot, idle, slot-clear_session}
use voxenta_agentic_ai.Proctoring.Session.{
  Identity, Registry, register_identity, is_current_connection, evict_previous_connection,
  cleanup_session, drop_session,
}
use voxenta_agentic_ai.Proctoring.Controller.{
  World, ConnectionState, accepted, offer, on_connectionstatechange, cleanup,
}

-- Which connection a session has after an eviction.
pub session_map-evict :
    (s s' : Text) (r : Registry)
    → get (evict_previous_connection s r).1.session_map s'
      ≡ (if s == s' then none else get r.session_map s')
unfolding evict_previous_connection
session_map-evict s s' r = elim (Option-cases (get r.session_map s)) [
  | inl e ↦ ground (arith, e, text_eq.beq_iff s s')
  | inr (pc, e) ↦ rw (e, evict_previous_connection) (get-remove r.session_map s s')
]

module _ (cfg : Settings) (s : Text) (i : Identity) (pc : ℕ) (w : World) where
  -- Which connection a session has after an offer that was accepted.
  pub session_map-offer :
      (s' : Text) (b : Bool)
      → (offer cfg s i pc w).0 ≡ accepted b
      → get (offer cfg s i pc w).1.registry.session_map s'
        ≡ (if s == s' then some pc else get w.registry.session_map s')
  unfolding offer register_identity
  session_map-offer s' b h = ground (
    arith,
    get-put (evict_previous_connection s w.registry).1.session_map s s' pc,
    session_map-evict s s' w.registry,
  )

  -- Once an offer for a session is accepted, its connection is the current one, and whatever states
  -- another connection of that session goes through, the world stays as the offer left it.
  pub stale_connection_harmless :
      (close_raises : ℕ → Bool) (b : Bool) (old : ℕ) (state : ConnectionState)
      → (offer cfg s i pc w).0 ≡ accepted b
      → old ≢ pc
      → (is_current_connection s pc (offer cfg s i pc w).1.registry ≡ true)
        × (on_connectionstatechange close_raises s old state (offer cfg s i pc w).1
            ≡ (offer cfg s i pc w).1)
  unfolding is_current_connection on_connectionstatechange
  stale_connection_harmless close_raises b old state h ne = (
    ground (arith, session_map-offer s b h, eq_refl s, eq_refl pc),
    ground (arith, session_map-offer s b h, eq_refl s, ℕ_eq.beq_iff pc old),
  )

  -- An offer, accepted or not, keeps the event log, the subscribers, what is queued for them and the
  -- alert policy of every session.
  pub offer_keeps :
      ((offer cfg s i pc w).1.policy ≡ w.policy)
      × ((offer cfg s i pc w).1.registry.session_events ≡ w.registry.session_events)
      × ((offer cfg s i pc w).1.registry.session_subscribers ≡ w.registry.session_subscribers)
      × ((offer cfg s i pc w).1.registry.queues ≡ w.registry.queues)
  unfolding offer evict_previous_connection register_identity
  offer_keeps = ground arith

-- The end of a session whose connection closes: nothing of it is left in the registry, its alert slots
-- are empty, and the other sessions keep all that they had.
pub cleanup_ends_session :
    (close_raises : ℕ → Bool) (s s' alert_type : Text) (w : World)
    → (cleanup_session close_raises s w.registry).0 ≡ false
    → let w' = cleanup close_raises s w in
      (get w'.registry.session_map s' ≡ (if s == s' then none else get w.registry.session_map s'))
      × (get w'.registry.session_events s'
          ≡ (if s == s' then none else get w.registry.session_events s'))
      × (get w'.registry.session_subscribers s'
          ≡ (if s == s' then none else get w.registry.session_subscribers s'))
      × (get w'.registry.session_identity s'
          ≡ (if s == s' then none else get w.registry.session_identity s'))
      × (slot w'.policy s' alert_type ≡ (if s == s' then idle else slot w.policy s' alert_type))
unfolding cleanup cleanup_session drop_session
cleanup_ends_session close_raises s s' t w h = ground (
  arith,
  get-remove w.registry.session_map s s',
  get-remove w.registry.session_events s s',
  get-remove w.registry.session_subscribers s s',
  get-remove w.registry.session_identity s s',
  slot-clear_session s s' t w.policy,
)
