-- ===== src/Realtime/AsyncSocket/Failures.antt =====
-- src/spooled/realtime/websocket.py: a dial of `AsyncWebSocketClient` that the server refuses.
use spooled_sdk_python.Prelude.{
  ℕ, ◌<◌, leb, true, false, Option, List, [], ◌∷◌, Str, ◌≡◌, refl, arith,
}
use spooled_sdk_python.Json.{Value}
use spooled_sdk_python.Errors.{Exn, Result, raised}
use spooled_sdk_python.Realtime.Events.{Clock}
use spooled_sdk_python.Realtime.Sse.{reconnecting}
use spooled_sdk_python.Realtime.Socket.{SocketClient, reset_budget_if_stable}
use spooled_sdk_python.Realtime.AsyncSocket.{
  quiet, back_off, over, reading, sleeping, Answer, broken, slept, rejected, failed, disconnect,
  step, run, message, ended, accepted, disconnected_by,
}

module _ (loads : Str → Option Value) (k : Clock) (stable : ℕ) where
  over_stays :
      (rest : List Answer) (r : Result (Unit {0})) (c : SocketClient)
      → let d = run loads k stable rest (record { client = c; place = over r }) in
        (d.events.place ≡ over r) × (d.yields ≡ []) × (d.dials ≡ 0)
  unfolding run step
  over_stays [] r c = (refl, refl, refl)
  over_stays (disconnected_by ∷ rest) r c =
      let (p, y, d) = over_stays rest r (disconnect c) in (p, y, omega (arith, d))
  over_stays (message t now ∷ rest) r c =
      let (p, y, d) = over_stays rest r c in (p, y, omega (arith, d))
  over_stays (ended ∷ rest) r c = let (p, y, d) = over_stays rest r c in (p, y, omega (arith, d))
  over_stays (broken e now ∷ rest) r c =
      let (p, y, d) = over_stays rest r c in (p, y, omega (arith, d))
  over_stays (slept ∷ rest) r c = let (p, y, d) = over_stays rest r c in (p, y, omega (arith, d))
  over_stays (accepted took now ∷ rest) r c =
      let (p, y, d) = over_stays rest r c in (p, y, omega (arith, d))
  over_stays (rejected e ∷ rest) r c =
      let (p, y, d) = over_stays rest r c in (p, y, omega (arith, d))

  reset_budget_keeps :
      (now : ℕ) (c : SocketClient)
      → c.auto_reconnect ≡ true
      → c.reconnect_attempts < c.max_reconnect_attempts
      → let d = reset_budget_if_stable stable now c in
        (d.auto_reconnect ≡ true) × (leb d.max_reconnect_attempts d.reconnect_attempts ≡ false)
  unfolding reset_budget_if_stable
  reset_budget_keeps now c a h = ground (arith, a, h)

  failed_sleeps :
      (e : Exn) (now : ℕ) (c : SocketClient)
      → c.auto_reconnect ≡ true
      → c.reconnect_attempts < c.max_reconnect_attempts
      → failed stable e now c ≡ quiet sleeping (back_off (reset_budget_if_stable stable now c))
  unfolding failed
  failed_sleeps e now c a h = let (x, y) = reset_budget_keeps now c a h in simp (x, y) refl

  -- Where the socket breaks, reconnecting is on and attempts are left, the generator dials once; if
  -- the server refuses that dial, the generator raises there, however many attempts are left: it
  -- yields nothing more and dials no more, and the client stays in the state of reconnecting.
  pub refused_dial_ends :
      (e x : Exn) (now : ℕ) (rest : List Answer) (c : SocketClient)
      → c.auto_reconnect ≡ true
      → c.reconnect_attempts < c.max_reconnect_attempts
      → let d =
          run loads k stable
            (broken e now ∷ slept ∷ rejected x ∷ rest)
            (record { client = c; place = reading }) in
        (d.events.place ≡ over (raised x))
        × (d.yields ≡ [])
        × (d.dials ≡ 1)
        × ((run loads k stable
              (broken e now ∷ slept ∷ rejected x ∷ [])
              (record { client = c; place = reading })).events.client.state
            ≡ reconnecting)
  unfolding run step
  refused_dial_ends e x now rest c a h =
      let first = failed_sleeps e now c a h in
      let (p, y, d) = over_stays rest (raised x) (back_off (reset_budget_if_stable stable now c)) in
      simp first (p, y, omega (arith, d), refl)
