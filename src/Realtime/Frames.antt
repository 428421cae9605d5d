-- ===== src/Realtime/Frames.antt =====
-- src/spooled/realtime/sse.py: what a frame of the stream says, and which event ends a job's stream.
use spooled_sdk_python.Prelude.{
  Bool, true, false, Option, none, some, List, [], ◌∷◌, Str, codes, str_mem,
}
use spooled_sdk_python.Json.{Value, null, str, arr, obj, Fields, get, get_or}
use spooled_sdk_python.Errors.{Result, ok, raised}
use spooled_sdk_python.Realtime.Events.{
  EventType, job_status_changed, error, RealtimeEvent, Clock, from_server_event, type_error,
}

unfoldable pub terminal_job_statuses : List Str
terminal_job_statuses =
    codes "completed" ∷ codes "failed" ∷ codes "deadletter" ∷ codes "cancelled" ∷ []

-- `value in TERMINAL_JOB_STATUSES`; a list or a dict has no hash.
unfoldable pub is_terminal : Value → Result Bool
unfolding terminal_job_statuses
is_terminal (str s) = ok (str_mem s terminal_job_statuses)
is_terminal (arr xs) = raised type_error
is_terminal (obj fs) = raised type_error
is_terminal _ = ok false

abbrev pub new_status_ends : Value → Result Bool
new_status_ends (obj fs) = is_terminal (get_or (codes "new_status") null fs)
new_status_ends _ = ok false

unfoldable pub closes_by : EventType → Value → Result Bool
unfolding is_terminal
closes_by error payload = ok true
closes_by job_status_changed payload = new_status_ends payload
closes_by _ payload = ok false

-- `closes_job_stream`.
unfoldable pub closes_job_stream : RealtimeEvent → Result Bool
unfolding closes_by
closes_job_stream e = closes_by e.type e.payload

abbrev pub or_message : Str → Value
or_message [] = str (codes "message")
or_message (c ∷ s) = str (c ∷ s)

abbrev pub inner_time : Value → Value
inner_time (obj fs) = get_or (codes "timestamp") null fs
inner_time _ = null

-- The type and the data of a payload: those of its envelope, if it is one.
abbrev pub unwrapped : Str → Fields → Option Value → Option Value → Value × Value
unwrapped event_type fs (some t) (some (obj d)) = (t, obj d)
unwrapped event_type fs _ _ = (or_message event_type, obj fs)

unfoldable pub unwrap : Str → Value → Value × Value
unwrap event_type (obj fs) = unwrapped event_type fs (get (codes "type") fs) (get (codes "data") fs)
unwrap event_type payload = (or_message event_type, payload)

-- `_event_from_sse_payload`.
unfoldable pub event_from_sse_payload : Clock → Str → Value → Result (Option RealtimeEvent)
unfolding unwrap
event_from_sse_payload k event_type payload =
    let (t, d) = unwrap event_type payload in from_server_event k t d (inner_time d)

-- `_parse_event`; `loads` is Python's `json.loads`, none for a JSONDecodeError.
abbrev pub parsed : Clock → Str → Option Value → Result (Option RealtimeEvent)
parsed k event_type none = ok none
parsed k event_type (some v) = event_from_sse_payload k event_type v

unfoldable pub parse_event :
    (Str → Option Value) → Clock → Str → Str → Result (Option RealtimeEvent)
unfolding event_from_sse_payload
parse_event loads k event_type text = parsed k event_type (loads text)
