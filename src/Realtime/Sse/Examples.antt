-- ===== src/Realtime/Sse/Examples.antt =====
-- src/spooled/realtime/sse.py on concrete streams.
use spooled_sdk_python.Prelude.{
  ◌+◌, ◌*◌, ◌≤◌, true, false, Option, none, some, List, [], ◌∷◌, Str, codes, ◌≡◌, refl,
}
use spooled_sdk_python.Json.{Value, str, obj, field, end, null, get}
use spooled_sdk_python.Errors.{Exn, spooled, ok, runtime_error, authentication_error}
use spooled_sdk_python.Realtime.Events.{
  RealtimeEvent, Clock, job_status_changed, look_up, server_event_map, event_type_of,
  parse_timestamp, from_server_event,
}
use spooled_sdk_python.Realtime.Frames.{
  parse_event, unwrap, closes_job_stream, is_terminal, terminal_job_statuses,
}
use spooled_sdk_python.Realtime.Sse.{
  SseClient, connected, reading, over, frame, ended, accepted, rejected, slept, Answer, run,
}
use spooled_sdk_python.Realtime.Sse.Budget.{count_frames, left, dials_bounded}
use spooled_sdk_python.Realtime.Sse.Ends.{job_stream_ends}

abbrev clock : Clock
clock = record { iso = λ s. none; of_number = λ v. none; now = 7 }

abbrev envelope : Value
envelope = obj (
    field (codes "type") (str (codes "JobStatusChange"))
      (field (codes "data") (obj (field (codes "new_status") (str (codes "completed")) end)) end))

-- The text `done` stands for a frame with a job's last status.
abbrev loads : Str → Option Value
loads s = some envelope

abbrev client : Option Str → SseClient
client job = record {
  job_id = job;
  auto_reconnect = true;
  max_reconnect_attempts = 10;
  state = connected;
  reconnect_attempts = 1;
  closed = false;
  finished = false;
  has_stream = true;
}

abbrev last_event : RealtimeEvent
last_event = record {
  type = job_status_changed;
  payload = obj (field (codes "new_status") (str (codes "completed")) end);
  timestamp = 7;
}

parsed : parse_event loads clock (codes "job.status") (codes "done") ≡ ok (some last_event)
unfolding parse_event unwrap get event_type_of look_up server_event_map from_server_event
    parse_timestamp
parsed = refl

closes : closes_job_stream last_event ≡ ok true
unfolding closes_job_stream get terminal_job_statuses is_terminal
closes = refl

job_stream_ends_example :
    let r =
      run loads clock
        (frame (codes "job.status") (codes "done") ∷ ended ∷ accepted ∷ [])
        (record { client = client (some (codes "j1")); place = reading }) in
    (r.yields ≡ last_event ∷ []) × (r.dials ≡ 0) × (r.events.place ≡ over (ok tt))
job_stream_ends_example =
    job_stream_ends loads clock (codes "job.status") (codes "one") last_event
      (client (some (codes "j1"))) (accepted ∷ []) refl refl b'd' parsed closes

abbrev lost : List Answer
lost = ended ∷ slept ∷ rejected runtime_error ∷ slept ∷ accepted ∷ ended ∷ slept ∷ []

dials_bounded_example :
    (run loads clock lost (record { client = client none; place = reading })).dials
    ≤ left (record { client = client none; place = reading }) + count_frames loads clock lost * 10
dials_bounded_example =
    dials_bounded loads clock lost (record { client = client none; place = reading })

abbrev unauthorized : Exn
unauthorized = spooled (
    authentication_error
      (record { message = str (codes "no"); code = null; details = null; request_id = none }))
