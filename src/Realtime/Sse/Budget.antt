-- ===== src/Realtime/Sse/Budget.antt =====
-- src/spooled/realtime/sse.py: how often the generator dials again.
use spooled_sdk_python.Prelude.{
  mul_one_more, ℕ, ◌+◌, ◌-◌, ◌*◌, ◌≤◌, Bool, true, false, Option, none, some, List, [], ◌∷◌, Str,
  ◌≡◌, ap, arith, Bool-cases, inl, inr,
}
use spooled_sdk_python.Json.{Value}
use spooled_sdk_python.Errors.{Exn, Result, ok, Result-cases}
use spooled_sdk_python.Realtime.Events.{RealtimeEvent, Clock}
use spooled_sdk_python.Realtime.Frames.{closes_job_stream, parse_event}
use spooled_sdk_python.Realtime.Sse.{
  SseClient, Events, Place, reading, sleeping, dialing, stream_end, failure, Answer, frame, ended,
  broken, slept, rejected, step, run, close, refused, handle, retry_failure, retry_end, can_retry,
  deliver, read_frame, read_end, one_if,
}

-- The dials that are still to come before the budget is spent, the one after a sleep included.
abbrev pub pending : Place → ℕ
pending (sleeping o last) = 1
pending _ = 0

abbrev pub left : Events → ℕ
left s = (s.client.max_reconnect_attempts - s.client.reconnect_attempts) + pending s.place

-- A move from one client to another that spends no more than it may.
abbrev IsPaid : ℕ → Events → SseClient → Type 0
IsPaid gain s c =
    (left s ≤ (c.max_reconnect_attempts - c.reconnect_attempts) + gain)
    × (s.client.max_reconnect_attempts ≡ c.max_reconnect_attempts)

retry_failure-IsPaid :
    (e : Exn) (last : Option Exn) (c : SseClient) → IsPaid 0 (retry_failure e last c) c
unfolding retry_failure can_retry
retry_failure-IsPaid e last c = ground arith

handle-IsPaid : (e : Exn) (c : SseClient) → IsPaid 0 (handle e c) c
unfolding handle
handle-IsPaid e c = ground (arith, retry_failure-IsPaid e none c)

retry_end-IsPaid : (last : Option Exn) (c : SseClient) → IsPaid 0 (retry_end last c) c
unfolding retry_end can_retry
retry_end-IsPaid none c = ground arith
retry_end-IsPaid (some e) c = ground (arith, handle-IsPaid e c)

deliver-IsPaid :
    (e : RealtimeEvent) (c : SseClient) → IsPaid c.max_reconnect_attempts (deliver e c).events c
unfolding deliver
deliver-IsPaid e c =
    let c' = record c { reconnect_attempts = 0 } in
    elim (Result-cases (closes_job_stream e)) [
      | inl (b, q) ↦ ground (arith, q)
      | inr (x, q) ↦ ground (arith, q, handle-IsPaid x c')
    ]

module _ (loads : Str → Option Value) (k : Clock) where
  abbrev holds_event : Result (Option RealtimeEvent) → Bool
  holds_event (ok (some e)) = true
  holds_event _ = false

  -- A frame that holds an event.
  abbrev pub carries : Answer → Bool
  carries (frame t []) = false
  carries (frame t (b ∷ text)) = holds_event (parse_event loads k t (b ∷ text))
  carries _ = false

  abbrev pub count_frames : List Answer → ℕ
  count_frames [] = 0
  count_frames (a ∷ rest) = one_if (carries a) + count_frames rest

  abbrev gain : Bool → SseClient → ℕ
  gain false c = 0
  gain true c = c.max_reconnect_attempts

  read_frame-IsPaid :
      (t text : Str) (c : SseClient)
      → IsPaid (gain (carries (frame t text)) c) (read_frame loads k t text c).events c
  unfolding read_frame
  read_frame-IsPaid t [] c = ground arith
  read_frame-IsPaid t (b ∷ text) c = elim (Result-cases (parse_event loads k t (b ∷ text))) [
    | inl (none, q) ↦ ground (arith, q)
    | inl (some e, q) ↦ ground (arith, q, deliver-IsPaid e c)
    | inr (x, q) ↦ ground (arith, q, handle-IsPaid x c)
  ]

  read_end-IsPaid : (c : SseClient) → IsPaid 0 (read_end loads k c) c
  unfolding read_end close
  read_end-IsPaid c = ground (arith, retry_end-IsPaid none c)

  step_cost :
      (p : Place) (a : Answer) (c : SseClient)
      → let t = step loads k p a c in
        (one_if t.dials + left t.events
          ≤ left (record { client = c; place = p }) + gain (carries a) c)
        × (t.events.client.max_reconnect_attempts ≡ c.max_reconnect_attempts)
  unfolding step
  step_cost reading (frame t text) c = ground (arith, read_frame-IsPaid t text c)
  step_cost reading ended c = ground (arith, read_end-IsPaid c)
  step_cost reading (broken e) c = ground (arith, handle-IsPaid e c)
  step_cost (sleeping stream_end last) slept c = ground arith
  step_cost (sleeping (failure x) last) slept c = ground arith
  step_cost (dialing stream_end last) (rejected e) c =
      ground (arith, handle-IsPaid e (refused c), retry_end-IsPaid (some e) (refused c))
  step_cost (dialing (failure x) last) (rejected e) c =
      ground (arith, retry_failure-IsPaid x (some e) (refused c))
  step_cost p a c = ground arith

  -- The generator dials again at most `max_reconnect_attempts` times, and as often again for each
  -- frame that holds an event; so a server that accepts and sends nothing is not dialed for ever.
  pub dials_bounded :
      (answers : List Answer) (s : Events)
      → (run loads k answers s).dials
        ≤ left s + count_frames answers * s.client.max_reconnect_attempts
  unfolding run
  dials_bounded [] s = omega arith
  dials_bounded (a ∷ rest) s =
      let t = step loads k s.place a s.client in
      let m = s.client.max_reconnect_attempts in
      let n = count_frames rest in
      let same = ap (λ x. n * x) (step_cost s.place a s.client).1 in
      let later : (run loads k rest t.events).dials ≤ left t.events + n * m =
        omega (arith, same, dials_bounded rest t.events) in
      elim (Bool-cases (carries a)) [
        | inl y ↦ ground (arith, y, step_cost s.place a s.client, later, mul_one_more n m)
        | inr f ↦ ground (arith, f, step_cost s.place a s.client, later)
      ]
