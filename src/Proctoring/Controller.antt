-- ===== src/Proctoring/Controller.antt =====
-- src/controller/webrtc.py: the signalling route, the handler of connection states, and the routes that
-- end a session. A world is the registry with the alert policy.
pub mod Reconnect
pub mod Capacity
use voxenta_agentic_ai.Prelude.{
  ℕ, ◌≡◌, Bool, true, false, not, ◌||◌, Option, none, some, List, [], ◌∷◌, map, length, is_some,
  Text, text_eq, ℕ_eq, Dict, get, put, mem, add, discard, get_or, ◌==◌, leb, if◌then◌else◌,
}
use voxenta_agentic_ai.Proctoring.AlertPolicy.{Settings, Policy, clear_session}
use voxenta_agentic_ai.Proctoring.Session
use voxenta_agentic_ai.Proctoring.Session.{
  Identity, Registry, register_identity, is_current_connection, evict_previous_connection,
  cleanup_session,
}

pub record World : Type 0 where
  pub registry : Registry
  pub policy : Policy

-- `RTCPeerConnection.connectionState`
pub data ConnectionState : Type 0 where
  new connecting connected disconnected failed closed : ConnectionState

abbrev pub is_terminal : ConnectionState → Bool
is_terminal disconnected = true
is_terminal failed = true
is_terminal closed = true
is_terminal _ = false

pub data Answer : Type 0 where
  accepted : Bool → Answer
  max_connections_reached : Answer

-- `cleanup_session(session_id, on_cleanup=clear_session)`
unfoldable pub cleanup : (ℕ → Bool) → Text → World → World
unfolding cleanup_session clear_session
cleanup close_raises session w =
    let (raised, r) = cleanup_session close_raises session w.registry in
    record { registry = r; policy = if raised then w.policy else clear_session session w.policy }

-- `offer`, behind the checks on the body: `pc` is the connection that the constructor returns.
-- The answer says whether a previous connection was evicted.
unfoldable pub offer : Settings → Text → Identity → ℕ → World → Answer × World
unfolding evict_previous_connection register_identity add put
offer cfg session identity pc w =
    let (reconnected, r) = evict_previous_connection session w.registry in
    if leb cfg.max_connections (length r.pcs)
    then (max_connections_reached, record w { registry = r })
    else (
      accepted reconnected,
      record w {
        registry =
            register_identity session identity
              (record r { pcs = add r.pcs pc; session_map = put r.session_map session pc });
      },
    )

unfoldable pub on_connectionstatechange : (ℕ → Bool) → Text → ℕ → ConnectionState → World → World
unfolding is_current_connection cleanup
on_connectionstatechange close_raises session pc state w =
    if not (is_terminal state)
    then w
    else if not (is_current_connection session pc w.registry)
    then w
    else cleanup close_raises session w

-- `disconnect_session`: whether the session was found, and the world after it.
unfoldable pub disconnect_session : (ℕ → Bool) → Text → World → Bool × World
unfolding cleanup get
disconnect_session close_raises session w =
    if is_some (get w.registry.session_map session)
    then (true, cleanup close_raises session w)
    else (false, w)

-- `stream_session_events`: the queue `queue` subscribes, and the stored events are sent first.
unfoldable pub stream_session_events : Text → ℕ → World → Option (List Session.Event × World)
unfolding get put add
stream_session_events session queue w =
    let r = w.registry in
    if is_some (get r.session_map session) || is_some (get r.session_events session)
    then some (
      get_or (get r.session_events session) [],
      record w {
        registry = record r {
          session_subscribers =
              put r.session_subscribers session
                (add (get_or (get r.session_subscribers session) []) queue);
          queues = put r.queues queue [];
        };
      },
    )
    else none
