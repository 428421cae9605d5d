-- ===== src/Realtime/Events.antt =====
-- src/spooled/realtime/events.py: the types of events, and an event from what the server sends. A
-- value that is no text is looked up in a dict by its hash, which a list and a dict do not have.
pub mod Types
use spooled_sdk_python.Prelude.{
  ℕ, ◌==◌, Bool, true, false, Option, none, some, List, [], ◌∷◌, ◌++◌, Str, codes, str_eq, strip,
  is_true, if◌then◌else◌,
}
use spooled_sdk_python.Json.{
  Value, null, bool, int, float, str, arr, obj, Fields, end, field, get, get_or,
}
use spooled_sdk_python.Errors.{Exn, Result, ok, raised, other, ◌>>=◌}

pub data EventType : Type 0 where
  job_status_changed job_created job_completed job_failed queue_stats : EventType
  worker_heartbeat worker_registered worker_deregistered system_health ping error : EventType

-- `RealtimeEventType`, as text.
unfoldable pub name : EventType → Str
name job_status_changed = codes "job.status_changed"
name job_created = codes "job.created"
name job_completed = codes "job.completed"
name job_failed = codes "job.failed"
name queue_stats = codes "queue.stats"
name worker_heartbeat = codes "worker.heartbeat"
name worker_registered = codes "worker.registered"
name worker_deregistered = codes "worker.deregistered"
name system_health = codes "system.health"
name ping = codes "ping"
name error = codes "error"

unfoldable pub server_event_map : List (Str × EventType)
server_event_map =
    (codes "JobStatusChange", job_status_changed)
    ∷ (codes "JobCreated", job_created)
    ∷ (codes "JobCompleted", job_completed)
    ∷ (codes "JobFailed", job_failed)
    ∷ (codes "QueueStats", queue_stats)
    ∷ (codes "WorkerHeartbeat", worker_heartbeat)
    ∷ (codes "WorkerRegistered", worker_registered)
    ∷ (codes "WorkerDeregistered", worker_deregistered)
    ∷ (codes "SystemHealth", system_health)
    ∷ (codes "Ping", ping)
    ∷ (codes "Error", error)
    ∷ (codes "job.status", job_status_changed)
    ∷ (codes "job.created", job_created)
    ∷ (codes "job.completed", job_completed)
    ∷ (codes "job.failed", job_failed)
    ∷ (codes "queue.stats", queue_stats)
    ∷ (codes "worker.heartbeat", worker_heartbeat)
    ∷ (codes "worker.registered", worker_registered)
    ∷ (codes "worker.deregistered", worker_deregistered)
    ∷ (codes "system.health", system_health)
    ∷ (codes "ping", ping)
    ∷ (codes "error", error)
    ∷ []

abbrev pub type_error : Exn
type_error = other 0

unfoldable pub look_up : Str → List (Str × EventType) → Option EventType
look_up k [] = none
look_up k ((j, t) ∷ m) = if str_eq j k then some t else look_up k m

-- `SERVER_EVENT_MAP.get(server_type)`.
unfoldable pub event_type_of : Value → Result (Option EventType)
unfolding look_up server_event_map
event_type_of (str s) = ok (look_up s server_event_map)
event_type_of (arr xs) = raised type_error
event_type_of (obj fs) = raised type_error
event_type_of _ = ok none

-- Python's `datetime.fromisoformat` and `datetime.fromtimestamp` in UTC, none for what they reject,
-- and the clock.
pub record Clock : Type 0 where
  pub iso : Str → Option ℕ
  pub of_number : Value → Option ℕ
  pub now : ℕ

-- `text[:-1] + "+00:00" if text.endswith("Z") else text`.
unfoldable pub normalized : Str → Str
normalized [] = []
normalized (c ∷ []) = if c == b'Z' then codes "+00:00" else c ∷ []
normalized (c ∷ d ∷ s) = c ∷ normalized (d ∷ s)

abbrev iso_of : Clock → Str → Option ℕ
iso_of k [] = none
iso_of k (c ∷ s) = k.iso (normalized (c ∷ s))

-- `_parse_timestamp`; a JSON value is no `datetime`, and a `bool` is an `int`.
unfoldable pub parse_timestamp : Clock → Value → Option ℕ
unfolding normalized
parse_timestamp k (str s) = iso_of k (strip s)
parse_timestamp k (bool b) = k.of_number (bool b)
parse_timestamp k (int i) = k.of_number (int i)
parse_timestamp k (float m n) = k.of_number (float m n)
parse_timestamp k _ = none

-- `payload` is the event's `data`.
pub record RealtimeEvent : Type 0 where
  pub type : EventType
  pub payload : Value
  pub timestamp : ℕ

abbrev inner_timestamp : Clock → Value → Option ℕ
inner_timestamp k (obj fs) = parse_timestamp k (get_or (codes "timestamp") null fs)
inner_timestamp k _ = none

abbrev first_of : Option ℕ → Option ℕ → ℕ → ℕ
first_of (some t) inner now = t
first_of none (some t) now = t
first_of none none now = now

abbrev built : Clock → Value → Value → Option EventType → Option RealtimeEvent
built k payload timestamp none = none
built k payload timestamp (some t) = some (record {
  type = t;
  payload = payload;
  timestamp = first_of (parse_timestamp k timestamp) (inner_timestamp k payload) k.now;
})

-- `RealtimeEvent.from_server_event`.
unfoldable pub from_server_event : Clock → Value → Value → Value → Result (Option RealtimeEvent)
unfolding event_type_of
from_server_event k server_type payload timestamp = do
  t ← event_type_of server_type
  ok (built k payload timestamp t)

-- The commands of a WebSocket and their `to_dict`.
pub data Command : Type 0 where
  subscribe unsubscribe : (queue job_id : Option Str) → Command
  ping_command : Command

abbrev with_text : Str → Option Str → Fields → Fields
with_text k none fs = fs
with_text k (some []) fs = fs
with_text k (some (c ∷ s)) fs = field k (str (c ∷ s)) fs

unfoldable pub to_dict : Command → Fields
to_dict (subscribe queue job_id) =
    field (codes "cmd") (str (codes "subscribe"))
      (with_text (codes "queue") queue (with_text (codes "job_id") job_id end))
to_dict (unsubscribe queue job_id) =
    field (codes "cmd") (str (codes "unsubscribe"))
      (with_text (codes "queue") queue (with_text (codes "job_id") job_id end))
to_dict ping_command = field (codes "cmd") (str (codes "ping")) end
