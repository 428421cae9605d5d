-- ===== src/Realtime/Socket/Examples.antt =====
-- src/spooled/realtime/websocket.py on concrete calls.
use spooled_sdk_python.Prelude.{
  ◌+◌, ◌*◌, ◌≤◌, true, false, none, some, List, [], ◌∷◌, codes, ◌≡◌, refl,
}
use spooled_sdk_python.Errors.{ok, raised, runtime_error}
use spooled_sdk_python.Realtime.Events.{subscribe}
use spooled_sdk_python.Realtime.Sse.{disconnected, connected}
use spooled_sdk_python.Realtime.Socket.{
  SubscriptionFilter, SocketClient, Took, same_id, filter_delete, connects, connect_answers,
  subscribes, unsubscribes, breaks, schedules, fires, stray_fires, answers, proceeds, yields, stops,
  resubscribing, Call, run, step, begin_connect, finish_connect, open_socket, send_command,
  subscribe_to, unsubscribe_from, handle_disconnect, reset_budget_if_stable, schedule_reconnect,
  do_reconnect, first_turn, turn, resubscribe_next,
}
use spooled_sdk_python.Realtime.Socket.Budget.{
  left, count_dials, count_resets, count_overlaps, count_dials_bounded,
}

abbrev fresh : SocketClient
fresh = record {
  auto_reconnect = true;
  max_reconnect_attempts = 2;
  has_ws = false;
  sent = [];
  state = disconnected;
  reconnect_attempts = 0;
  connected_at = none;
  timer = false;
  strays = 0;
  timer_dials = 0;
  scheduling = 0;
  caller_dials = 0;
  readers = 0;
  subscriptions = [];
  stop_event = false;
  tasks = [];
}

abbrev takes : Took
takes m = true

abbrev emails : SubscriptionFilter
emails = record { queue = some (codes "emails"); job_id = none }

abbrev job : SubscriptionFilter
job = record { queue = none; job_id = some (codes "j1") }

-- Subscribed before and after the first socket, which breaks; the second one is told of what is left.
abbrev session : List Call
session =
    subscribes emails
    ∷ proceeds takes stops 0
    ∷ connects
    ∷ connect_answers 0 (ok tt)
    ∷ proceeds takes (yields emails) 0
    ∷ proceeds takes stops 0
    ∷ proceeds takes stops 0
    ∷ subscribes job
    ∷ proceeds takes stops 0
    ∷ proceeds takes stops 0
    ∷ unsubscribes emails
    ∷ proceeds takes stops 0
    ∷ proceeds takes stops 0
    ∷ breaks 1
    ∷ schedules
    ∷ fires
    ∷ answers 2 (ok tt)
    ∷ proceeds takes (yields job) 2
    ∷ proceeds takes stops 2
    ∷ []

resubscribed : (run 10 session fresh).sent ≡ subscribe none (some (codes "j1")) ∷ []
unfolding run step begin_connect finish_connect open_socket send_command subscribe_to
    unsubscribe_from handle_disconnect reset_budget_if_stable schedule_reconnect do_reconnect
    filter_delete same_id first_turn turn resubscribe_next
resubscribed = refl

-- The server refuses each dial. A caller connects while the first timer waits, and that socket breaks
-- too, so a second timer takes the name of the first: both dial.
abbrev refused : List Call
refused =
    connects
    ∷ connect_answers 0 (ok tt)
    ∷ breaks 1
    ∷ schedules
    ∷ connects
    ∷ connect_answers 2 (ok tt)
    ∷ breaks 3
    ∷ schedules
    ∷ fires
    ∷ stray_fires
    ∷ answers 4 (raised runtime_error)
    ∷ answers 5 (raised runtime_error)
    ∷ fires
    ∷ []

count_dials_bounded_example :
    count_dials 10 refused fresh
    ≤ left fresh + count_resets 10 refused fresh * 2 + count_overlaps 10 refused fresh
count_dials_bounded_example = count_dials_bounded 10 refused fresh

both_dial : (run 10 refused fresh).reconnect_attempts ≡ 2
unfolding run step begin_connect finish_connect open_socket handle_disconnect reset_budget_if_stable
    schedule_reconnect do_reconnect
both_dial = refl

abbrev resubscribes : SocketClient
resubscribes = record fresh {
  has_ws = true;
  state = connected;
  subscriptions = emails ∷ [];
  tasks = resubscribing true ∷ [];
}
