-- ===== src/Realtime/Socket/Budget.antt =====
-- src/spooled/realtime/websocket.py: how often the reconnect timers dial.
use spooled_sdk_python.Prelude.{
  mul_one_more, if◌then◌else◌, ℕ, ◌+◌, ◌-◌, ◌*◌, ◌≤◌, ltb, ◌&&◌, Bool, true, false, List, [], ◌∷◌,
  ◌≡◌, ap, arith, Bool-cases, inl, inr,
}
use spooled_sdk_python.Errors.{raised}
use spooled_sdk_python.Realtime.Events.{Command}
use spooled_sdk_python.Realtime.Sse.{one_if}
use spooled_sdk_python.Realtime.Socket.{
  SocketClient, Took, Task, resubscribing, resending, telling, sending, Fetch, yields, stops,
  resized, was_stable, send_command, open_socket, begin_connect, finish_connect, disconnect,
  subscribe_to, unsubscribe_from, send_ping, handle_disconnect, reset_budget_if_stable,
  schedule_reconnect, do_reconnect, resubscribe_next, turn, first_turn, Call, disconnects, breaks,
  fires, stray_fires, answers, proceeds, step,
}

abbrev pub larger : ℕ → ℕ → ℕ
larger m n = if ltb m n then n else m

-- The attempts that are left, but at least one for each thread that is to schedule one; and the
-- timers that wait.
abbrev pub left : SocketClient → ℕ
left c =
    larger (c.max_reconnect_attempts - c.reconnect_attempts) c.scheduling
    + one_if c.timer
    + c.strays

-- Whether the turn of the first task ends in `_handle_disconnect`.
abbrev pub is_cut : List Task → Fetch → Bool
is_cut (resubscribing true ∷ ks) resized = true
is_cut _ _ = false

-- Whether a step gives the whole budget back: `disconnect()`, or the end of a socket that has stayed
-- up.
abbrev pub resets : ℕ → Call → SocketClient → Bool
resets stable disconnects c = true
resets stable (breaks now) c = was_stable stable now c.connected_at
resets stable (answers now r) c = was_stable stable now c.connected_at
resets stable (proceeds took fetch now) c =
    is_cut c.tasks fetch && was_stable stable now c.connected_at
resets stable _ c = false

abbrev pub dials : Call → SocketClient → Bool
dials fires c = c.timer
dials stray_fires c = ltb 0 c.strays
dials _ c = false

-- Whether a thread passes the test of the budget while another one has passed it and not yet
-- counted its attempt.
abbrev pub overlaps : ℕ → Call → SocketClient → Bool
overlaps stable m c = ltb 0 c.scheduling && ltb c.scheduling (step stable m c).scheduling

unfoldable pub count_dials : ℕ → List Call → SocketClient → ℕ
count_dials stable [] c = 0
count_dials stable (m ∷ rest) c = one_if (dials m c) + count_dials stable rest (step stable m c)

unfoldable pub count_resets : ℕ → List Call → SocketClient → ℕ
count_resets stable [] c = 0
count_resets stable (m ∷ rest) c =
    one_if (resets stable m c) + count_resets stable rest (step stable m c)

unfoldable pub count_overlaps : ℕ → List Call → SocketClient → ℕ
count_overlaps stable [] c = 0
count_overlaps stable (m ∷ rest) c =
    one_if (overlaps stable m c) + count_overlaps stable rest (step stable m c)

abbrev gain : Bool → SocketClient → ℕ
gain false c = 0
gain true c = c.max_reconnect_attempts

abbrev Costs : Bool → SocketClient → SocketClient → Type 0
Costs given d c =
    (left d ≤ left c + gain given c + one_if (ltb 0 c.scheduling && ltb c.scheduling d.scheduling))
    × (d.max_reconnect_attempts ≡ c.max_reconnect_attempts)

handle_disconnect_cost :
    (stable now : ℕ) (c : SocketClient)
    → Costs (was_stable stable now c.connected_at) (handle_disconnect stable now c) c
unfolding handle_disconnect reset_budget_if_stable schedule_reconnect
handle_disconnect_cost stable now c = ground arith

send_command_cost :
    (took : Took) (m : Command) (c : SocketClient) → Costs false (send_command took m c).1 c
unfolding send_command
send_command_cost took m c = ground arith

first_turn_cost :
    (stable : ℕ) (took : Took) (fetch : Fetch) (now : ℕ) (ks : List Task) (c : SocketClient)
    → Costs
        (is_cut ks fetch && was_stable stable now c.connected_at)
        (first_turn stable took fetch now ks c)
        c
unfolding first_turn turn resubscribe_next
first_turn_cost stable took fetch now [] c = ground arith
first_turn_cost stable took (yields f) now (resubscribing t ∷ ks) c = ground arith
first_turn_cost stable took stops now (resubscribing t ∷ ks) c = ground arith
first_turn_cost stable took resized now (resubscribing true ∷ ks) c =
    ground (arith, handle_disconnect_cost stable now (record c { tasks = ks }))
first_turn_cost stable took resized now (resubscribing false ∷ ks) c = ground arith
first_turn_cost stable took fetch now (resending t m ∷ ks) c =
    ground (arith, send_command_cost took m (record c { tasks = ks }))
first_turn_cost stable took fetch now (telling m ∷ ks) c = ground arith
first_turn_cost stable took fetch now (sending m ∷ ks) c =
    ground (arith, send_command_cost took m (record c { tasks = ks }))

step_cost :
    (stable : ℕ) (m : Call) (c : SocketClient)
    → (one_if (dials m c) + left (step stable m c)
        ≤ left c + gain (resets stable m c) c + one_if (overlaps stable m c))
      × ((step stable m c).max_reconnect_attempts ≡ c.max_reconnect_attempts)
unfolding step begin_connect finish_connect disconnect subscribe_to unsubscribe_from send_ping
    schedule_reconnect do_reconnect open_socket
step_cost stable (answers now (raised e)) c =
    ground (arith, handle_disconnect_cost stable now (record c { timer_dials = c.timer_dials - 1 }))
step_cost stable (breaks now) c =
    ground (arith, handle_disconnect_cost stable now (record c { readers = c.readers - 1 }))
step_cost stable (proceeds took fetch now) c =
    ground (arith, first_turn_cost stable took fetch now c.tasks c)
step_cost stable m c = ground arith

-- However the threads and timers interleave: all reconnect timers together, those that a newer one
-- has replaced and that `connect()` leaves waiting included, dial at most as often as attempts are
-- left, or threads are about to schedule one, and timers wait at the start, `max_reconnect_attempts`
-- times more each time that the budget is given back, and once more each time that a thread passes
-- the test of the budget while another one has passed it and not yet counted its attempt.
pub count_dials_bounded :
    (stable : ℕ) (calls : List Call) (c : SocketClient)
    → count_dials stable calls c
      ≤ left c
        + count_resets stable calls c * c.max_reconnect_attempts
        + count_overlaps stable calls c
unfolding count_dials count_resets count_overlaps
count_dials_bounded stable [] c = omega arith
count_dials_bounded stable (m ∷ rest) c =
    let d = step stable m c in
    let n = count_resets stable rest d in
    let cost = step_cost stable m c in
    let same = ap (λ x. n * x) cost.1 in
    let later : count_dials stable rest d
        ≤ left d + n * c.max_reconnect_attempts + count_overlaps stable rest d =
      omega (arith, same, count_dials_bounded stable rest d) in
    elim (Bool-cases (resets stable m c)) [
      | inl y ↦ ground (arith, y, cost, later, mul_one_more n c.max_reconnect_attempts)
      | inr f ↦ ground (arith, f, cost, later)
    ]
