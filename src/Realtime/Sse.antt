-- ===== src/Realtime/Sse.antt =====
-- src/spooled/realtime/sse.py: `SSEClient`, with the generator `events()` as a machine: `Place` is
-- where the generator stands, and an `Answer` what lets it go on (a frame, the end of the stream, the
-- end of a sleep, the outcome of a dial) or a call of `close()` by another thread. Handlers, whose
-- exceptions are dropped, the lengths of the sleeps and the text of the URL are left out.
pub mod Ends
pub mod Budget
pub mod Closing
mod Examples
use spooled_sdk_python.Prelude.{
  ℕ, ◌+◌, ◌&&◌, ◌||◌, not, ltb, Bool, true, false, Option, none, some, List, [], ◌∷◌, Str, codes,
  str_mem, is_set, if◌then◌else◌,
}
use spooled_sdk_python.Json.{Value, null, str, arr, obj, Fields, get, get_or}
use spooled_sdk_python.Errors.{Exn, spooled, Result, ok, raised, ◌>>=◌, is_retryable}
use spooled_sdk_python.Realtime.Events.{
  EventType, job_status_changed, error, RealtimeEvent, Clock, from_server_event, type_error,
}
use spooled_sdk_python.Realtime.Frames.{closes_job_stream, parse_event}

pub data ConnectionState : Type 0 where
  disconnected connecting connected reconnecting : ConnectionState

pub record SseClient : Type 0 where
  pub job_id : Option Str
  pub auto_reconnect : Bool
  pub max_reconnect_attempts : ℕ
  pub state : ConnectionState
  pub reconnect_attempts : ℕ
  pub closed : Bool
  pub finished : Bool
  -- Whether `_sse_client` is set.
  pub has_stream : Bool

-- What a reconnect follows: the end of the stream, or an exception.
pub data Origin : Type 0 where
  stream_end : Origin
  failure : Exn → Origin

pub data Place : Type 0 where
  -- In `_open()`, called by `connect()`.
  connecting_first : Place
  reading : Place
  -- In the sleep and in `_open()` of `_reconnect()`, with its `last_error`.
  sleeping dialing : Origin → Option Exn → Place
  -- The generator has returned or raised.
  over : Result (Unit {0}) → Place

pub record Events : Type 0 where
  pub client : SseClient
  pub place : Place

pub data Answer : Type 0 where
  frame : (event_type text : Str) → Answer
  ended : Answer
  broken : Exn → Answer
  slept : Answer
  accepted : Answer
  rejected : Exn → Answer
  close_called : Answer

abbrev at : Place → SseClient → Events
at p c = record { client = c; place = p }

abbrev pub returned : SseClient → Events
returned = at (over (ok tt))

abbrev pub raises : Exn → SseClient → Events
raises e = at (over (raised e))

unfoldable pub close : SseClient → SseClient
close c = record c { closed = true; has_stream = false; state = disconnected }

-- `_open()` once the server has accepted, and once it has not.
unfoldable pub opened : SseClient → SseClient
opened c = record c { has_stream = true; state = connected; closed = false }

unfoldable pub refused : SseClient → SseClient
refused c = record c { has_stream = false; state = disconnected }

-- `_reopen()` and `connect()`, up to the dial.
abbrev pub redial : SseClient → SseClient
redial c = record c { has_stream = false; state = connecting }

abbrev pub connect : SseClient → SseClient
connect c = record c { reconnect_attempts = 0; finished = false; state = connecting }

-- `isinstance(exc, SpooledError) and not exc.is_retryable()`.
unfoldable pub is_fatal : Exn → Bool
is_fatal (spooled e) = not (is_retryable e)
is_fatal _ = false

-- The test of the loop in `_reconnect()`, and the first lines of its body.
unfoldable pub can_retry : SseClient → Bool
can_retry c = c.auto_reconnect && not c.closed && ltb c.reconnect_attempts c.max_reconnect_attempts

abbrev pub back_off : SseClient → SseClient
back_off c = record c { reconnect_attempts = c.reconnect_attempts + 1; state = reconnecting }

abbrev last_or : Option Exn → Exn → Exn
last_or none e = e
last_or (some x) e = x

-- `_reconnect()` in the `except` block: an exception of its own, or the one that is handled.
unfoldable pub retry_failure : Exn → Option Exn → SseClient → Events
unfolding can_retry
retry_failure e last c =
    if can_retry c then at (sleeping (failure e) last) (back_off c) else raises (last_or last e) c

-- The `except` block of `events()`.
unfoldable pub handle : Exn → SseClient → Events
unfolding is_fatal retry_failure
handle e c =
    if c.closed then returned c else if is_fatal e then raises e c else retry_failure e none c

abbrev give_up : Option Exn → SseClient → Events
give_up none c = returned c
give_up (some e) c = handle e c

-- `_reconnect()` in the `try` block.
unfoldable pub retry_end : Option Exn → SseClient → Events
unfolding can_retry handle
retry_end last c =
    if can_retry c then at (sleeping stream_end last) (back_off c) else give_up last c

abbrev pub retry : Origin → Option Exn → SseClient → Events
retry stream_end last c = retry_end last c
retry (failure e) last c = retry_failure e last c

-- `_reconnect()` returns False, or raises what retrying cannot help.
abbrev pub stopped : Origin → SseClient → Events
stopped stream_end c = returned c
stopped (failure e) c = raises e c

abbrev pub fatal : Origin → Exn → SseClient → Events
fatal stream_end e c = handle e c
fatal (failure x) e c = raises e c

-- A step, with the event that the generator yields, and whether it dials.
pub record Turn : Type 0 where
  pub events : Events
  pub event : Option RealtimeEvent
  pub dials : Bool

abbrev pub quiet : Events → Turn
quiet s = record { events = s; event = none; dials = false }

abbrev mark_finished : SseClient → Bool → SseClient
mark_finished c false = c
mark_finished c true = record c { finished = true }

abbrev yielded : RealtimeEvent → SseClient → Result Bool → Turn
yielded e c (ok b) = record {
  events = at reading (mark_finished c b);
  event = some e;
  dials = false;
}
yielded e c (raised x) = quiet (handle x c)

-- A parsed event in the loop.
unfoldable pub deliver : RealtimeEvent → SseClient → Turn
unfolding handle
deliver e c =
    let c' = record c { reconnect_attempts = 0 } in
    yielded e c' (if is_set c.job_id then closes_job_stream e else ok false)

abbrev on_parsed : Result (Option RealtimeEvent) → SseClient → Turn
on_parsed (ok none) c = quiet (at reading c)
on_parsed (ok (some e)) c = deliver e c
on_parsed (raised x) c = quiet (handle x c)

abbrev pub one_if : Bool → ℕ
one_if false = 0
one_if true = 1

-- A run of the generator: where it stands then, what it yielded, and how often it dialed again.
pub record Run : Type 0 where
  pub events : Events
  pub yields : List RealtimeEvent
  pub dials : ℕ

abbrev pub cons_event : Option RealtimeEvent → List RealtimeEvent → List RealtimeEvent
cons_event none es = es
cons_event (some e) es = e ∷ es

module _ (loads : Str → Option Value) (k : Clock) where
  abbrev with_text : Str → Str → SseClient → Turn
  with_text event_type [] c = quiet (at reading c)
  with_text event_type (b ∷ text) c = on_parsed (parse_event loads k event_type (b ∷ text)) c

  -- A frame of the stream.
  unfoldable pub read_frame : Str → Str → SseClient → Turn
  unfolding deliver
  read_frame event_type text c =
      if c.closed then quiet (returned c) else with_text event_type text c

  -- The stream has ended.
  unfoldable pub read_end : SseClient → Events
  unfolding close retry_end
  read_end c =
      if c.finished then returned (close c) else if c.closed then returned c else retry_end none c

  abbrev dialed : Origin → Option Exn → SseClient → Turn
  dialed o last c =
      if c.closed
      then quiet (stopped o c)
      else record { events = at (dialing o last) (redial c); event = none; dials = true }

  abbrev rejection : Origin → Option Exn → Exn → SseClient → Events
  rejection o last e c = if is_fatal e then fatal o e c else retry o (some e) c

  unfoldable pub step : Place → Answer → SseClient → Turn
  unfolding read_frame read_end handle opened refused retry_end retry_failure close
  step p close_called c = quiet (at p (close c))
  step connecting_first accepted c = quiet (at reading (opened c))
  step connecting_first (rejected e) c = quiet (raises e (refused c))
  step reading (frame event_type text) c = read_frame event_type text c
  step reading ended c = quiet (read_end c)
  step reading (broken e) c = quiet (handle e c)
  step (sleeping o last) slept c = dialed o last c
  step (dialing o last) accepted c = quiet (at reading (opened c))
  step (dialing o last) (rejected e) c = quiet (rejection o last e (refused c))
  step p a c = quiet (at p c)

  unfoldable pub run : List Answer → Events → Run
  run [] s = record { events = s; yields = []; dials = 0 }
  run (a ∷ rest) s =
      let t = step s.place a s.client in
      let r = run rest t.events in
      record {
        events = r.events;
        yields = cons_event t.event r.yields;
        dials = one_if t.dials + r.dials;
      }

-- `events()`: `connect()` first, if there is no stream.
unfoldable pub begin : SseClient → Events
begin c =
    if not c.has_stream
    then at connecting_first (connect c)
    else if c.closed
    then returned c
    else at reading c
