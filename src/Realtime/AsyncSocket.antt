-- ===== src/Realtime/AsyncSocket.antt =====
-- src/spooled/realtime/websocket.py: the generator `events()` of `AsyncWebSocketClient`, as a machine
-- like that of Realtime.Sse. The client has no timer, no stop event and no receive thread, so these
-- fields of `SocketClient` stay as they are; its methods to subscribe have the code of the other client. `Clock`
-- reads the times in a frame, and `now` is the clock that the budget is kept by.
pub mod Failures
mod Examples
use spooled_sdk_python.Prelude.{
  ℕ, ◌+◌, ◌&&◌, ◌||◌, not, leb, ltb, Bool, true, false, Option, none, some, List, [], ◌∷◌, Str,
  codes, if◌then◌else◌,
}
use spooled_sdk_python.Json.{Value, null, str, obj, end, Fields, get_or}
use spooled_sdk_python.Errors.{Exn, Result, ok, raised, runtime_error}
use spooled_sdk_python.Realtime.Events.{RealtimeEvent, Clock, from_server_event}
use spooled_sdk_python.Realtime.Sse.{disconnected, connected, reconnecting, one_if}
use spooled_sdk_python.Realtime.Socket.{
  SubscriptionFilter, SocketClient, Took, subscribe_command, send_command, reset_budget_if_stable,
}

-- `_parse_message`, on what `json.loads` returns; none for a JSONDecodeError.
unfoldable pub parse_value : Clock → Option Value → Result (Option RealtimeEvent)
parse_value k (some (obj fs)) =
    from_server_event k (get_or (codes "type") (str []) fs) (get_or (codes "data") (obj end) fs)
      (get_or (codes "timestamp") null fs)
parse_value k _ = ok none

pub data Place : Type 0 where
  -- In `async for`; in the sleep and in the dial of `_do_reconnect`; returned or raised.
  reading sleeping dialing : Place
  over : Result (Unit {0}) → Place

pub data Answer : Type 0 where
  message : (text : Str) (now : ℕ) → Answer
  ended : Answer
  broken : Exn → ℕ → Answer
  slept : Answer
  accepted : Took → ℕ → Answer
  rejected : Exn → Answer
  -- `disconnect()` by another task.
  disconnected_by : Answer

pub record Events : Type 0 where
  pub client : SocketClient
  pub place : Place

-- A step, with the event that is yielded, and whether it dials.
pub record Turn : Type 0 where
  pub events : Events
  pub event : Option RealtimeEvent
  pub dials : Bool

abbrev pub quiet : Place → SocketClient → Turn
quiet p c = record { events = record { client = c; place = p }; event = none; dials = false }

unfoldable pub disconnect : SocketClient → SocketClient
disconnect c = record c {
  has_ws = false;
  state = disconnected;
  reconnect_attempts = 0;
  connected_at = none;
  subscriptions = [];
}

abbrev down : SocketClient → SocketClient
down c = record c { state = disconnected }

-- The first lines of `_do_reconnect`.
abbrev pub back_off : SocketClient → SocketClient
back_off c = record c { state = reconnecting; reconnect_attempts = c.reconnect_attempts + 1 }

-- The `except` block of `events()`.
unfoldable pub failed : ℕ → Exn → ℕ → SocketClient → Turn
failed stable e now c =
    let c' = reset_budget_if_stable stable now c in
    if not c'.auto_reconnect
    then quiet (over (raised e)) (down c')
    else if leb c'.max_reconnect_attempts c'.reconnect_attempts
    then quiet (over (raised e)) (down c')
    else quiet sleeping (back_off c')

-- `_resubscribe_all`, for the filters that are left; an exception is dropped.
unfoldable pub resubscribe : Took → List SubscriptionFilter → SocketClient → SocketClient
unfolding send_command
resubscribe took [] c = c
resubscribe took (f ∷ fs) c = resubscribe took fs (send_command took (subscribe_command f) c).1

-- `_do_reconnect` once the server has accepted.
unfoldable pub reopened : Took → ℕ → SocketClient → SocketClient
unfolding resubscribe
reopened took now c =
    let c' = record c { has_ws = true; sent = []; state = connected; connected_at = some now } in
    resubscribe took c'.subscriptions c'

abbrev pub cons_event : Option RealtimeEvent → List RealtimeEvent → List RealtimeEvent
cons_event none es = es
cons_event (some e) es = e ∷ es

pub record Run : Type 0 where
  pub events : Events
  pub yields : List RealtimeEvent
  pub dials : ℕ

module _ (loads : Str → Option Value) (k : Clock) (stable : ℕ) where
  abbrev on_parsed : ℕ → Result (Option RealtimeEvent) → SocketClient → Turn
  on_parsed now (ok e) c = record {
    events = record { client = c; place = reading };
    event = e;
    dials = false;
  }
  on_parsed now (raised x) c = failed stable x now c

  unfoldable pub step : Place → Answer → SocketClient → Turn
  unfolding failed reopened disconnect parse_value
  step p disconnected_by c = quiet p (disconnect c)
  step reading (message text now) c = on_parsed now (parse_value k (loads text)) c
  step reading ended c = quiet (over (ok tt)) c
  step reading (broken e now) c = failed stable e now c
  step sleeping slept c = record {
    events = record { client = c; place = dialing };
    event = none;
    dials = true;
  }
  step dialing (accepted took now) c = quiet reading (reopened took now c)
  step dialing (rejected e) c = quiet (over (raised e)) c
  step p a c = quiet p c

  unfoldable pub run : List Answer → Events → Run
  run [] s = record { events = s; yields = []; dials = 0 }
  run (a ∷ rest) s =
      let t = step s.place a s.client in
      let r = run rest t.events in
      record {
        events = r.events;
        yields = cons_event t.event r.yields;
        dials = one_if t.dials + r.dials;
      }

-- `events()`.
unfoldable pub begin : SocketClient → Events
begin c = record { client = c; place = (if c.has_ws then reading else over (raised runtime_error)) }
