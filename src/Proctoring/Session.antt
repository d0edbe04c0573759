-- ===== src/Proctoring/Session.antt =====
-- src/infra/webrtc/proctoring_session.py: the registry of peer connections, the event log and the
-- SSE queues of each session. Connections and queues are numbers. Whether `close()` of a connection
-- raises is a parameter, `close_raises`; the timestamps of events are not modelled.
use voxenta_agentic_ai.Prelude.{
  ℕ, Bool, true, false, Option, none, some, List, [], ◌∷◌, ◌++◌, Text, text_eq, ℕ_eq, Dict, get,
  put, remove, discard, get_or, strip, ◌==◌, if◌then◌else◌,
}

pub record Identity : Type 0 where
  pub exam_session_id : Text
  pub participant_id : Text
  pub schedule_id : Text
  pub stream_id : Text
  pub stream_type : Text

abbrev pub no_identity : Identity
no_identity = record {
  exam_session_id = [];
  participant_id = [];
  schedule_id = [];
  stream_id = [];
  stream_type = [];
}

-- The dict that `build_event` makes; `object` and `person_count` are the extra keys in use.
pub record Event : Type 0 where
  pub event_type : Text
  pub message : Text
  pub confidence : ℕ
  pub object : Option Text
  pub person_count : Option ℕ

-- What is put on the queue of an SSE subscriber.
pub data Message : Type 0 where
  detected : Event → Message
  session_ended : Message

pub record Registry : Type 0 where
  pub pcs : List ℕ
  pub session_map : Dict Text ℕ
  pub session_events : Dict Text (List Event)
  pub session_subscribers : Dict Text (List ℕ)
  pub session_identity : Dict Text Identity
  -- the contents of the `asyncio.Queue`s
  pub queues : Dict ℕ (List Message)

abbrev pub empty : Registry
empty = record {
  pcs = [];
  session_map = [];
  session_events = [];
  session_subscribers = [];
  session_identity = [];
  queues = [];
}

unfoldable pub register_identity : Text → Identity → Registry → Registry
unfolding strip
register_identity session i r = record r {
  session_identity = put r.session_identity session (record {
    exam_session_id = strip i.exam_session_id;
    participant_id = strip i.participant_id;
    schedule_id = strip i.schedule_id;
    stream_id = strip i.stream_id;
    stream_type = strip i.stream_type;
  });
}

-- `session_identity.get(session_id) or {}`, with the empty text for a key that `{}` lacks.
unfoldable pub get_identity : Text → Registry → Identity
unfolding get
get_identity session r = get_or (get r.session_identity session) no_identity

-- `queue.put` for each subscriber.
unfoldable pub put_all : List ℕ → Message → Dict ℕ (List Message) → Dict ℕ (List Message)
unfolding get put
put_all [] m qs = qs
put_all (q ∷ rest) m qs = put_all rest m (put qs q (get_or (get qs q) [] ++ m ∷ []))

unfoldable pub broadcast_event : Text → Event → Registry → Registry
unfolding put_all get put
broadcast_event session e r = record r {
  session_events =
      put r.session_events session (get_or (get r.session_events session) [] ++ e ∷ []);
  queues = put_all (get_or (get r.session_subscribers session) []) (detected e) r.queues;
}

-- `session_map.get(session_id) is pc`
unfoldable pub is_current_connection : Text → ℕ → Registry → Bool
unfolding get
is_current_connection session pc r = elim (get r.session_map session) [
  | none ↦ false
  | some current ↦ current == pc
]

-- An exception of `close()` is caught, so it changes nothing.
unfoldable pub evict_previous_connection : Text → Registry → Bool × Registry
unfolding get remove discard
evict_previous_connection session r = elim (get r.session_map session) [
  | none ↦ (false, r)
  | some previous ↦
      (true, record r { session_map = remove r.session_map session; pcs = discard r.pcs previous })
]

-- The part of `cleanup_session` behind the connection: subscribers, events and identity.
unfoldable pub drop_session : Text → Registry → Registry
unfolding get remove put_all
drop_session session r = record r {
  queues = put_all (get_or (get r.session_subscribers session) []) session_ended r.queues;
  session_subscribers = remove r.session_subscribers session;
  session_events = remove r.session_events session;
  session_identity = remove r.session_identity session;
}

-- The first component says that `close()` raised, which ends the call there. The caller's
-- `on_cleanup` runs after this if it did not.
unfoldable pub cleanup_session : (ℕ → Bool) → Text → Registry → Bool × Registry
unfolding drop_session discard
cleanup_session close_raises session r =
    let popped = record r { session_map = remove r.session_map session } in
    elim (get r.session_map session) [
      | none ↦ (false, drop_session session popped)
      | some pc ↦
          if close_raises pc
          then (true, popped)
          else (false, drop_session session (record popped { pcs = discard r.pcs pc }))
    ]
