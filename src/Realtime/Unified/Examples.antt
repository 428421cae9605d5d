-- ===== src/Realtime/Unified/Examples.antt =====
-- src/spooled/realtime/unified.py on concrete clients.
use spooled_sdk_python.Prelude.{
  ℕ, Bool, true, false, Option, none, some, List, [], ◌∷◌, ◌++◌, Str, codes, ◌≡◌, refl, arith,
}
use spooled_sdk_python.Json.{null, str}
use spooled_sdk_python.Errors.{
  Exn, Info, spooled, ok, raised, spooled_error, authentication_error, is_retryable,
}
use spooled_sdk_python.Realtime.Events.{Command, job_status_changed, RealtimeEvent}
use spooled_sdk_python.Realtime.Sse.{
  ConnectionState, disconnected, connecting, connected, reconnecting, is_fatal,
}
use spooled_sdk_python.Realtime.Socket.{SubscriptionFilter, same_id}
use spooled_sdk_python.Realtime.Unified.{
  Unified, is_open, filter_path, connects, subscribes, breaks, stale_breaks, fires, answers, run,
}
use spooled_sdk_python.Realtime.Unified.Filters.{connect_filter_lost, stale_reader_closes}
use spooled_sdk_python.Realtime.Unified.GaveUp.{all_background, gave_up_stays}
use spooled_sdk_python.Realtime.Unified.Queue.{Feed}
use spooled_sdk_python.Realtime.Unified.Queue.Latest.{
  dispatch_all, last_of, dispatch_all_keeps_latest,
}

abbrev verbatim : Str → Str
verbatim s = s

abbrev taken : Command → Bool
taken m = true

abbrev emails : SubscriptionFilter
emails = record { queue = some (codes "emails"); job_id = none }

abbrev texts : SubscriptionFilter
texts = record { queue = some (codes "texts"); job_id = none }

abbrev client : ConnectionState → Option Str → List SubscriptionFilter → List Str → Unified
client s url fs urls = record {
  sse = true;
  base_url = codes "https://h";
  auto_reconnect = true;
  max_reconnect_attempts = 10;
  state = s;
  reconnect_attempts = 0;
  connected_at = none;
  timer = false;
  strays = 0;
  dialing = urls;
  subscriptions = fs;
  has_ws = false;
  sent = [];
  stream = url;
  sse_job_stream = false;
  finished = false;
  stop_event = false;
  stale = 0;
  last_error = none;
  error_events = [];
}

abbrev fresh : Unified
fresh = client disconnected none [] []

connect_filter_lost_example :
    ((run verbatim 10 (connects (some emails) taken 1 (ok tt) ∷ []) fresh).stream
      ≡ some (codes "https://h" ++ filter_path verbatim (some emails)))
    × ((run verbatim 10
          (breaks 5 ∷ fires ∷ answers taken 7 (ok tt) ∷ [])
          (run verbatim 10 (connects (some emails) taken 1 (ok tt) ∷ []) fresh)).stream
        ≡ some (codes "https://h" ++ codes "/api/v1/events"))
connect_filter_lost_example =
    connect_filter_lost verbatim 10 emails taken 1 5 7 fresh refl refl refl refl (omega arith) refl

abbrev streaming : Unified
streaming = client connected (some (codes "https://h/api/v1/events?queue=emails")) (emails ∷ []) []

stale_reader_closes_example :
    let d = run verbatim 10 (subscribes texts taken 1 (ok tt) ∷ stale_breaks 2 ∷ []) streaming in
    (d.stream ≡ none) × (d.state ≡ reconnecting) × (d.timer ≡ true)
unfolding same_id
stale_reader_closes_example =
    stale_reader_closes verbatim 10 texts taken 1 2 streaming refl refl refl refl refl (omega arith)

abbrev info : Info
info = record { message = str (codes "revoked"); code = null; details = null; request_id = none }

abbrev refusal : Exn
refusal = spooled (authentication_error info)

abbrev dials : Unified
dials = client connecting none [] (codes "https://h/api/v1/events" ∷ [])

gave_up_stays_example :
    let d = run verbatim 10 (answers taken 3 (raised refusal) ∷ breaks 4 ∷ fires ∷ []) dials in
    (d.state ≡ disconnected)
    × (d.last_error ≡ some refusal)
    × (d.error_events ≡ refusal ∷ [])
    × (is_open d ≡ false)
    × (d.timer ≡ false)
    × (d.stop_event ≡ dials.stop_event)
unfolding all_background is_fatal authentication_error spooled_error is_retryable
gave_up_stays_example =
    gave_up_stays verbatim 10 taken 3 refusal (codes "https://h/api/v1/events")
      (breaks 4 ∷ fires ∷ []) dials refl refl refl refl refl refl refl refl

abbrev event : ℕ → RealtimeEvent
event n = record { type = job_status_changed; payload = null; timestamp = n }

abbrev full : Feed
full = record {
  maxsize = 2;
  buffer = some (event 1 ∷ event 2 ∷ []);
  handled = event 1 ∷ event 2 ∷ [];
}

dispatch_all_keeps_latest_example :
    ((dispatch_all (event 3 ∷ []) full).buffer
      ≡ some (last_of 2 (event 1 ∷ event 2 ∷ event 3 ∷ [])))
    × ((dispatch_all (event 3 ∷ []) full).handled ≡ event 1 ∷ event 2 ∷ event 3 ∷ [])
dispatch_all_keeps_latest_example =
    dispatch_all_keeps_latest (event 3 ∷ []) (event 1 ∷ event 2 ∷ []) full refl (omega arith)
      (omega arith)
