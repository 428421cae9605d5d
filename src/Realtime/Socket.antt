-- ===== src/Realtime/Socket.antt =====
-- src/spooled/realtime/websocket.py: `WebSocketClient`, whose methods run on the threads of their
-- callers, on receive threads and on reconnect timers, without a lock. What a thread has yet to do in
-- a method stands among the `tasks`: `step` is the start of a method, one turn of a task, or what
-- happens on a receive thread or a timer. A timer that `_reconnect_timer` no longer names is one of
-- `strays`; one that has fired dials until the server answers, and `cancel()` no longer stops it. A
-- thread that is to call `_schedule_reconnect` is one of `scheduling`. The assignments of
-- `disconnect` are one step, and so are those after a dial and those of `_schedule_reconnect`.
-- Handlers, debug output, the lengths of the delays and the URL are left out. `Took` says of each
-- command whether the socket takes it.
pub mod Budget
pub mod Races
mod Examples
use spooled_sdk_python.Prelude.{
  ℕ, ◌+◌, ◌-◌, ◌&&◌, ◌||◌, not, leb, ltb, Bool, true, false, Option, none, some, List, [], ◌∷◌,
  ◌++◌, Str, str_eq, any, if◌then◌else◌,
}
use spooled_sdk_python.Errors.{Exn, Result, ok, raised, runtime_error, other}
use spooled_sdk_python.Realtime.Events.{Command, subscribe, unsubscribe, ping_command}
use spooled_sdk_python.Realtime.Sse.{
  ConnectionState, disconnected, connecting, connected, reconnecting, one_if,
}

-- `SubscriptionFilter`. Its `to_id()` is the JSON text of both fields, so two filters have the same id
-- exactly if they are equal.
pub record SubscriptionFilter : Type 0 where
  pub queue : Option Str
  pub job_id : Option Str

abbrev pub same_text : Option Str → Option Str → Bool
same_text none none = true
same_text (some s) (some t) = str_eq s t
same_text _ _ = false

unfoldable pub same_id : SubscriptionFilter → SubscriptionFilter → Bool
same_id f g = same_text f.queue g.queue && same_text f.job_id g.job_id

abbrev pub filter_mem : SubscriptionFilter → List SubscriptionFilter → Bool
filter_mem f = any (same_id f)

unfoldable pub filter_delete :
    SubscriptionFilter → List SubscriptionFilter → List SubscriptionFilter
filter_delete f [] = []
filter_delete f (g ∷ gs) = if same_id f g then gs else g ∷ filter_delete f gs

-- What a thread has yet to do, by where it stands.
pub data Task : Type 0 where
  -- In `_resubscribe_all`, for `do_reconnect` or for `connect`: before the next filter, and before the
  -- command for one.
  resubscribing : (on_timer : Bool) → Task
  resending : (on_timer : Bool) → Command → Task
  -- In `subscribe` or `unsubscribe`, before the test of the state; before `_send_command`.
  telling sending : Command → Task

pub record SocketClient : Type 0 where
  pub auto_reconnect : Bool
  pub max_reconnect_attempts : ℕ
  -- Whether `_ws` is set, and the commands that this socket has taken.
  pub has_ws : Bool
  pub sent : List Command
  pub state : ConnectionState
  pub reconnect_attempts : ℕ
  pub connected_at : Option ℕ
  -- Whether the timer that `_reconnect_timer` names waits, how many others wait, and how many have
  -- fired and dial.
  pub timer : Bool
  pub strays : ℕ
  pub timer_dials : ℕ
  -- How many threads have passed the test in `_handle_disconnect` and not yet scheduled.
  pub scheduling : ℕ
  -- How many calls of `connect` dial, and how many receive threads are in `recv`.
  pub caller_dials : ℕ
  pub readers : ℕ
  pub subscriptions : List SubscriptionFilter
  pub stop_event : Bool
  pub tasks : List Task

abbrev pub Took : Type 0
Took = Command → Bool

abbrev pub is_connected : ConnectionState → Bool
is_connected connected = true
is_connected _ = false

abbrev pub is_up : ConnectionState → Bool
is_up connected = true
is_up connecting = true
is_up _ = false

-- What a method returns or raises, and the client after it.
abbrev pub Done : Type 0
Done = Result (Unit {0}) × SocketClient

abbrev pub fine : SocketClient → Done
fine c = (ok tt, c)

-- `_send_command`.
unfoldable pub send_command : Took → Command → SocketClient → Done
send_command took m c =
    if not c.has_ws || not (is_connected c.state)
    then (raised runtime_error, c)
    else if took m
    then fine (record c { sent = c.sent ++ m ∷ [] })
    else (raised (other 1), c)

abbrev pub subscribe_command : SubscriptionFilter → Command
subscribe_command f = subscribe f.queue f.job_id

abbrev pub unsubscribe_command : SubscriptionFilter → Command
unsubscribe_command f = unsubscribe f.queue f.job_id

abbrev pub add_task : Task → SocketClient → SocketClient
add_task k c = record c { tasks = c.tasks ++ k ∷ [] }

-- The dial has succeeded: `_mark_socket_open`, the receive thread, and then the subscriptions.
unfoldable pub open_socket : Bool → ℕ → SocketClient → SocketClient
open_socket on_timer now c = add_task (resubscribing on_timer) (record c {
  has_ws = true;
  sent = [];
  state = connected;
  connected_at = some now;
  stop_event = false;
  readers = c.readers + 1;
})

-- `connect()` up to its dial, and after it.
unfoldable pub begin_connect : SocketClient → SocketClient
begin_connect c =
    if is_up c.state then c else record c { state = connecting; caller_dials = c.caller_dials + 1 }

unfoldable pub finish_connect : ℕ → Result (Unit {0}) → SocketClient → SocketClient
unfolding open_socket
finish_connect now (ok _) c = open_socket false now c
finish_connect now (raised e) c = record c { state = disconnected }

unfoldable pub disconnect : SocketClient → SocketClient
disconnect c = record c {
  timer = false;
  stop_event = true;
  has_ws = false;
  state = disconnected;
  reconnect_attempts = 0;
  connected_at = none;
  subscriptions = [];
}

unfoldable pub subscribe_to : SubscriptionFilter → SocketClient → SocketClient
subscribe_to f c =
    if filter_mem f c.subscriptions
    then c
    else add_task (telling (subscribe_command f))
        (record c { subscriptions = c.subscriptions ++ f ∷ [] })

unfoldable pub unsubscribe_from : SubscriptionFilter → SocketClient → SocketClient
unfolding filter_delete
unsubscribe_from f c =
    if not (filter_mem f c.subscriptions)
    then c
    else add_task (telling (unsubscribe_command f))
        (record c { subscriptions = filter_delete f c.subscriptions })

unfoldable pub send_ping : SocketClient → SocketClient
send_ping c = if c.has_ws then add_task (sending ping_command) c else c

-- `_reset_budget_if_stable`; ten seconds in the unit of the clock.
abbrev pub was_stable : ℕ → ℕ → Option ℕ → Bool
was_stable stable now none = false
was_stable stable now (some at) = leb (at + stable) now

unfoldable pub reset_budget_if_stable : ℕ → ℕ → SocketClient → SocketClient
reset_budget_if_stable stable now c =
    if was_stable stable now c.connected_at
    then record c { connected_at = none; reconnect_attempts = 0 }
    else record c { connected_at = none }

-- `_schedule_reconnect`, up to the timer: the new one takes the name of one that may still wait.
unfoldable pub schedule_reconnect : SocketClient → SocketClient
schedule_reconnect c = record c {
  state = reconnecting;
  reconnect_attempts = c.reconnect_attempts + 1;
  strays = c.strays + one_if c.timer;
  timer = true;
}

-- `_handle_disconnect` up to its call of `_schedule_reconnect`.
unfoldable pub handle_disconnect : ℕ → ℕ → SocketClient → SocketClient
unfolding reset_budget_if_stable
handle_disconnect stable now c =
    let c' = reset_budget_if_stable stable now (record c { has_ws = false }) in
    if c'.auto_reconnect && ltb c'.reconnect_attempts c'.max_reconnect_attempts
    then record c' { scheduling = c'.scheduling + 1 }
    else record c' { state = disconnected }

-- `do_reconnect`, once the server has answered.
unfoldable pub do_reconnect : ℕ → ℕ → Result (Unit {0}) → SocketClient → SocketClient
unfolding open_socket handle_disconnect
do_reconnect stable now (ok _) c = open_socket true now c
do_reconnect stable now (raised e) c = handle_disconnect stable now c

-- What the iterator of `_resubscribe_all` over the dict of subscriptions does next: it yields a
-- filter, stops, or raises, since another thread has changed the dict.
pub data Fetch : Type 0 where
  yields : SubscriptionFilter → Fetch
  stops resized : Fetch

unfoldable pub resubscribe_next : ℕ → ℕ → Bool → Fetch → SocketClient → SocketClient
unfolding handle_disconnect
resubscribe_next stable now on_timer (yields f) c = record c {
  tasks = resending on_timer (subscribe_command f) ∷ c.tasks;
}
resubscribe_next stable now on_timer stops c = c
resubscribe_next stable now true resized c = handle_disconnect stable now c
resubscribe_next stable now false resized c = record c { state = disconnected }

-- The turn of a task, with the tasks of the other threads in the client.
unfoldable pub turn : ℕ → Took → Fetch → ℕ → Task → SocketClient → SocketClient
unfolding resubscribe_next send_command
turn stable took fetch now (resubscribing t) c = resubscribe_next stable now t fetch c
turn stable took fetch now (resending t m) c =
    let d = (send_command took m c).1 in record d { tasks = resubscribing t ∷ d.tasks }
turn stable took fetch now (telling m) c =
    if is_connected c.state then record c { tasks = sending m ∷ c.tasks } else c
turn stable took fetch now (sending m) c = (send_command took m c).1

unfoldable pub first_turn : ℕ → Took → Fetch → ℕ → List Task → SocketClient → SocketClient
unfolding turn
first_turn stable took fetch now [] c = c
first_turn stable took fetch now (k ∷ ks) c = turn stable took fetch now k (record c { tasks = ks })

abbrev pub rotate : List Task → List Task
rotate [] = []
rotate (k ∷ ks) = ks ++ k ∷ []

pub data Call : Type 0 where
  -- The start of a method.
  connects disconnects pings : Call
  subscribes unsubscribes : SubscriptionFilter → Call
  -- What the dial of `connect` does.
  connect_answers : ℕ → Result (Unit {0}) → Call
  -- `recv` raises on a receive thread; one leaves its loop.
  breaks : ℕ → Call
  leaves : Call
  -- `_schedule_reconnect`, which `_handle_disconnect` calls last.
  schedules : Call
  -- The timer fires, or a stray one; what a dial of a timer does.
  fires stray_fires : Call
  answers : ℕ → Result (Unit {0}) → Call
  -- The first task has a turn; the other ones come first.
  proceeds : Took → Fetch → ℕ → Call
  waits : Call

unfoldable pub step : ℕ → Call → SocketClient → SocketClient
unfolding begin_connect finish_connect disconnect subscribe_to unsubscribe_from send_ping
    handle_disconnect schedule_reconnect do_reconnect first_turn
step stable connects c = begin_connect c
step stable disconnects c = disconnect c
step stable pings c = send_ping c
step stable (subscribes f) c = subscribe_to f c
step stable (unsubscribes f) c = unsubscribe_from f c
step stable (connect_answers now r) c =
    if ltb 0 c.caller_dials
    then finish_connect now r (record c { caller_dials = c.caller_dials - 1 })
    else c
step stable (breaks now) c =
    let d = record c { readers = c.readers - 1 } in
    if ltb 0 c.readers then (if c.stop_event then d else handle_disconnect stable now d) else c
step stable leaves c =
    if ltb 0 c.readers && (c.stop_event || not c.has_ws)
    then record c { readers = c.readers - 1 }
    else c
step stable schedules c =
    if ltb 0 c.scheduling
    then schedule_reconnect (record c { scheduling = c.scheduling - 1 })
    else c
step stable fires c =
    if c.timer then record c { timer = false; timer_dials = c.timer_dials + 1 } else c
step stable stray_fires c =
    if ltb 0 c.strays
    then record c { strays = c.strays - 1; timer_dials = c.timer_dials + 1 }
    else c
step stable (answers now r) c =
    if ltb 0 c.timer_dials
    then do_reconnect stable now r (record c { timer_dials = c.timer_dials - 1 })
    else c
step stable (proceeds took fetch now) c = first_turn stable took fetch now c.tasks c
step stable waits c = record c { tasks = rotate c.tasks }

unfoldable pub run : ℕ → List Call → SocketClient → SocketClient
run stable [] c = c
run stable (m ∷ rest) c = run stable rest (step stable m c)
