-- ===== src/Realtime/Unified.antt =====
-- src/spooled/realtime/unified.py: `SpooledRealtime`, with both kinds of connection. `step` is a
-- call of a method, or what happens on a receive thread and on a reconnect timer. `quote` is the
-- quoting of `urllib.parse`. A receive thread whose connection another thread has closed is
-- `stale`: it goes on until its read raises. A timer that `_reconnect_timer` no longer names is one
-- of `strays`. A timer that has fired dials until the server answers; `connect()` by a caller dials
-- and is answered in one step. Handlers, debug output, the token and the lengths of the delays are
-- left out. The children: `Queue`, the queue of `events()`; `Filters`, which stream is open;
-- `GaveUp`, what follows a refusal for good.
pub mod Queue
pub mod Filters
pub mod GaveUp
mod Examples
use spooled_sdk_python.Prelude.{
  ℕ, ◌+◌, ◌-◌, ◌&&◌, not, ltb, Bool, true, false, Option, none, some, List, [], ◌∷◌, ◌++◌, Str,
  codes, contains, is_set, if◌then◌else◌,
}
use spooled_sdk_python.Errors.{Exn, Result, ok, raised, other}
use spooled_sdk_python.Realtime.Events.{Command}
use spooled_sdk_python.Realtime.Sse.{
  ConnectionState, disconnected, connecting, connected, reconnecting, is_fatal, one_if,
}
use spooled_sdk_python.Realtime.Socket.{
  SubscriptionFilter, filter_mem, filter_delete, Took, is_connected, is_up, subscribe_command,
  unsubscribe_command, was_stable,
}

-- `sse` is whether `options.type` is "sse".
pub record Unified : Type 0 where
  pub sse : Bool
  pub base_url : Str
  pub auto_reconnect : Bool
  pub max_reconnect_attempts : ℕ
  pub state : ConnectionState
  pub reconnect_attempts : ℕ
  pub connected_at : Option ℕ
  pub timer : Bool
  pub strays : ℕ
  -- The URLs that timers dial.
  pub dialing : List Str
  pub subscriptions : List SubscriptionFilter
  pub has_ws : Bool
  pub sent : List Command
  -- The URL of the open response.
  pub stream : Option Str
  pub sse_job_stream : Bool
  -- `finished` of `_sse_receive_loop`.
  pub finished : Bool
  pub stop_event : Bool
  pub stale : ℕ
  pub last_error : Option Exn
  -- The errors that `_give_up` has dispatched as "error" events, oldest first.
  pub error_events : List Exn

abbrev pub Done : Type 0
Done = Result (Unit {0}) × Unified

abbrev is_some : Option Str → Bool
is_some none = false
is_some (some s) = true

-- Whether a connection is open, so that its thread reads.
abbrev pub is_open : Unified → Bool
is_open c = if c.sse then is_some c.stream else c.has_ws

-- `_disconnect_sse` or `_disconnect_websocket`, on the thread that reads the connection.
abbrev pub drop : Unified → Unified
drop c = record c {
  stream = (if c.sse then none else c.stream);
  has_ws = (if c.sse then c.has_ws else false);
}

-- Its thread goes on, where another one does this.
abbrev pub orphan : Unified → Unified
orphan c = record c { stale = c.stale + one_if (is_open c) }

-- The URL of `_build_sse_url`: the filter, or else the first subscription.
abbrev pub chosen : Option SubscriptionFilter → List SubscriptionFilter → Option SubscriptionFilter
chosen (some f) fs = some f
chosen none [] = none
chosen none (f ∷ fs) = some f

abbrev pub text_of : Option Str → Str
text_of none = []
text_of (some s) = s

abbrev pub filter_path : (Str → Str) → Option SubscriptionFilter → Str
filter_path quote none = codes "/api/v1/events"
filter_path quote (some f) =
    if is_set f.job_id
    then codes "/api/v1/events/jobs/" ++ text_of f.job_id
    else if is_set f.queue
    then codes "/api/v1/events?queue=" ++ quote (text_of f.queue)
    else codes "/api/v1/events"

unfoldable pub build_sse_url :
    (Str → Str) → Str → Option SubscriptionFilter → List SubscriptionFilter → Str
build_sse_url quote base f fs = base ++ filter_path quote (chosen f fs)

-- `_send_ws_command`; the socket may not take the command.
unfoldable pub send_ws_command : Took → Command → Unified → Done
send_ws_command took m c =
    if not c.has_ws
    then (ok tt, c)
    else if took m
    then (ok tt, record c { sent = c.sent ++ m ∷ [] })
    else (raised (other 1), c)

-- `_resubscribe_all`, which the first command that is not taken ends.
unfoldable pub resubscribe_all : Took → List SubscriptionFilter → Unified → Done
resubscribe_all took [] c = (ok tt, c)
resubscribe_all took (f ∷ fs) c =
    let rest = resubscribe_all took fs (send_ws_command took (subscribe_command f) c).1 in
    elim (send_ws_command took (subscribe_command f) c).0 [
      | ok u ↦ rest
      | raised e ↦ (raised e, (send_ws_command took (subscribe_command f) c).1)
    ]

-- The end of `_connect_websocket`, and its `except` block, which leaves the socket open.
abbrev pub resubscribed : Done → Done
resubscribed (ok u, c) = (ok tt, c)
resubscribed (raised e, c) = (raised e, record c { state = disconnected })

unfoldable pub open_websocket : Took → ℕ → Unified → Done
open_websocket took now c = resubscribed (
    resubscribe_all took c.subscriptions (record (orphan c) {
      has_ws = true;
      sent = [];
      state = connected;
      connected_at = some now;
      stop_event = false;
    }))

-- `_connect_sse` once the server has accepted.
unfoldable pub open_sse : Str → Unified → Unified
open_sse url c = record (orphan c) {
  stream = some url;
  sse_job_stream = contains (codes "/events/jobs/") url;
  finished = false;
  state = connected;
  stop_event = false;
}

-- What the dial at a URL does: `_connect_sse` or `_connect_websocket`.
unfoldable pub dialed : Took → ℕ → Str → Result (Unit {0}) → Unified → Done
dialed took now url (ok u) c = if c.sse then (ok tt, open_sse url c) else open_websocket took now c
dialed took now url (raised e) c =
    (raised e, record (if c.sse then drop (orphan c) else c) { state = disconnected })

unfoldable pub connect :
    (Str → Str) → Option SubscriptionFilter → Took → ℕ → Result (Unit {0}) → Unified → Done
connect quote f took now r c =
    if is_up c.state
    then (ok tt, c)
    else dialed took now (build_sse_url quote c.base_url f c.subscriptions) r
        (record c { state = connecting })

unfoldable pub disconnect : Unified → Unified
disconnect c = record (drop (orphan c)) {
  timer = false;
  stop_event = true;
  state = disconnected;
  reconnect_attempts = 0;
  connected_at = none;
}

unfoldable pub reconnect :
    (Str → Str) → Option SubscriptionFilter → Took → ℕ → Result (Unit {0}) → Unified → Done
reconnect quote f took now r c = connect quote f took now r (disconnect c)

unfoldable pub subscribe :
    (Str → Str) → SubscriptionFilter → Took → ℕ → Result (Unit {0}) → Unified → Done
subscribe quote f took now r c =
    let d = record c { subscriptions = c.subscriptions ++ f ∷ [] } in
    if filter_mem f c.subscriptions
    then (ok tt, c)
    else if not (is_connected c.state)
    then (ok tt, d)
    else if c.sse
    then reconnect quote (some f) took now r d
    else send_ws_command took (subscribe_command f) d

unfoldable pub unsubscribe : SubscriptionFilter → Took → Unified → Done
unsubscribe f took c =
    let d = record c { subscriptions = filter_delete f c.subscriptions } in
    if not (filter_mem f c.subscriptions)
    then (ok tt, c)
    else if not c.sse && is_connected c.state
    then send_ws_command took (unsubscribe_command f) d
    else (ok tt, d)

-- `_reset_budget_if_stable` of src/spooled/realtime/websocket.py.
unfoldable pub reset_budget : ℕ → ℕ → Unified → Unified
reset_budget stable now c =
    if was_stable stable now c.connected_at
    then record c { connected_at = none; reconnect_attempts = 0 }
    else record c { connected_at = none }

-- `_schedule_reconnect`, up to the timer.
unfoldable pub schedule_reconnect : Unified → Unified
schedule_reconnect c = record c {
  state = reconnecting;
  reconnect_attempts = c.reconnect_attempts + 1;
  strays = c.strays + one_if c.timer;
  timer = true;
}

abbrev pub retry_or_end : Unified → Unified
retry_or_end c =
    if c.auto_reconnect && ltb c.reconnect_attempts c.max_reconnect_attempts
    then schedule_reconnect c
    else record c { state = disconnected }

unfoldable pub handle_disconnect : ℕ → ℕ → Unified → Unified
handle_disconnect stable now c =
    retry_or_end (if c.sse then drop c else reset_budget stable now (drop c))

-- `do_reconnect`, up to its dial; a client that is up is left alone.
unfoldable pub begin_reconnect : (Str → Str) → Unified → Unified
begin_reconnect quote c = if is_up c.state then c else record c {
  state = connecting;
  dialing = c.dialing ++ build_sse_url quote c.base_url none c.subscriptions ∷ [];
}

-- And once the server has answered: `_give_up` on what is not to be retried, whose event goes to
-- the handlers and to the queue of `events()`, as `dispatch_event` of `Queue` does it.
abbrev pub after_dial : ℕ → ℕ → Done → Unified
after_dial stable now (ok u, c) = c
after_dial stable now (raised e, c) =
    if is_fatal e
    then record c {
      last_error = some e;
      state = disconnected;
      error_events = c.error_events ++ e ∷ [];
    }
    else handle_disconnect stable now (orphan c)

abbrev pub answered : ℕ → Took → ℕ → Result (Unit {0}) → List Str → Unified → Unified
answered stable took now r [] c = c
answered stable took now r (url ∷ urls) c =
    after_dial stable now (dialed took now url r (record c { dialing = urls }))

-- The end of `_sse_receive_loop`, where the stream ended without an error.
unfoldable pub stream_ended : ℕ → ℕ → Unified → Unified
stream_ended stable now c =
    if c.finished then record (drop c) { state = disconnected } else handle_disconnect stable now c

-- An event that the loop has parsed: `closes` is what `closes_job_stream` says of it.
unfoldable pub sse_event : Bool → Unified → Unified
sse_event closes c = record c {
  reconnect_attempts = 0;
  finished = (if c.sse_job_stream && closes then true else c.finished);
}

pub data Call : Type 0 where
  connects reconnects : Option SubscriptionFilter → Took → ℕ → Result (Unit {0}) → Call
  disconnects : Call
  subscribes : SubscriptionFilter → Took → ℕ → Result (Unit {0}) → Call
  unsubscribes : SubscriptionFilter → Took → Call
  -- On the receive thread: an event of the stream; its end; a read that raises. Then the same on a
  -- thread whose connection was closed.
  receives : (closes : Bool) → Call
  ends breaks stale_breaks : (now : ℕ) → Call
  -- The timer fires, or a stray one; the server answers what was dialed first.
  fires stray_fires : Call
  answers : Took → ℕ → Result (Unit {0}) → Call

unfoldable pub step : (Str → Str) → ℕ → Call → Unified → Unified
step quote stable (connects f took now r) c = (connect quote f took now r c).1
step quote stable (reconnects f took now r) c = (reconnect quote f took now r c).1
step quote stable disconnects c = disconnect c
step quote stable (subscribes f took now r) c = (subscribe quote f took now r c).1
step quote stable (unsubscribes f took) c = (unsubscribe f took c).1
step quote stable (receives closes) c =
    if c.sse && is_open c && not c.stop_event then sse_event closes c else c
step quote stable (ends now) c =
    if c.sse && is_open c && not c.stop_event then stream_ended stable now c else c
step quote stable (breaks now) c =
    if is_open c && not c.stop_event then handle_disconnect stable now c else c
step quote stable (stale_breaks now) c =
    let d = record c { stale = c.stale - 1 } in
    if ltb 0 c.stale
    then (if c.stop_event then d else handle_disconnect stable now (orphan d))
    else c
step quote stable fires c =
    if c.timer then begin_reconnect quote (record c { timer = false }) else c
step quote stable stray_fires c =
    if ltb 0 c.strays then begin_reconnect quote (record c { strays = c.strays - 1 }) else c
step quote stable (answers took now r) c = answered stable took now r c.dialing c

unfoldable pub run : (Str → Str) → ℕ → List Call → Unified → Unified
run quote stable [] c = c
run quote stable (m ∷ rest) c = run quote stable rest (step quote stable m c)
