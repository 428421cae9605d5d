-- ===== src/Realtime/Socket/Races.antt =====
-- src/spooled/realtime/websocket.py: what two threads do to each other's calls.
use spooled_sdk_python.Prelude.{ℕ, ◌<◌, true, false, List, [], ◌∷◌, ◌≡◌, arith}
use spooled_sdk_python.Errors.{ok}
use spooled_sdk_python.Realtime.Sse.{connected}
use spooled_sdk_python.Realtime.Socket.{
  SubscriptionFilter, SocketClient, Took, open_socket, disconnect, do_reconnect, yields, stops,
  Call, disconnects, unsubscribes, answers, proceeds, waits, step, run,
}

-- A `disconnect()` that comes while a timer dials is undone once the server accepts: the client is
-- connected again, on a new socket, and its receive loop runs, although the user has ended it.
pub disconnect_lost :
    (stable now : ℕ) (c : SocketClient)
    → 0 < c.timer_dials
    → let d = run stable (disconnects ∷ answers now (ok tt) ∷ []) c in
      (d.state ≡ connected) × (d.has_ws ≡ true) × (d.stop_event ≡ false) × (d.subscriptions ≡ [])
unfolding run step disconnect do_reconnect open_socket
disconnect_lost stable now c h = ground arith

-- `_resubscribe_all` takes a filter; another thread unsubscribes it, from the test to the command;
-- then the first thread sends its own command, and has no filter left.
abbrev pub overtaken : Took → ℕ → SubscriptionFilter → List Call
overtaken took now f =
    proceeds took (yields f) now
    ∷ unsubscribes f
    ∷ waits
    ∷ proceeds took stops now
    ∷ proceeds took stops now
    ∷ proceeds took stops now
    ∷ proceeds took stops now
    ∷ []
