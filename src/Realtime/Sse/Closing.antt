-- ===== src/Realtime/Sse/Closing.antt =====
-- src/spooled/realtime/sse.py: `close()` while the generator runs on another thread.
use spooled_sdk_python.Prelude.{
  ℕ, Bool, true, false, Option, none, some, List, [], ◌∷◌, Str, ◌≡◌, refl, arith, is_set,
}
use spooled_sdk_python.Json.{Value}
use spooled_sdk_python.Errors.{Exn, ok}
use spooled_sdk_python.Realtime.Events.{RealtimeEvent, Clock}
use spooled_sdk_python.Realtime.Frames.{parse_event}
use spooled_sdk_python.Realtime.Sse.{
  SseClient, Events, Place, connecting_first, reading, sleeping, dialing, Origin, stream_end,
  failure, Answer, frame, ended, broken, slept, accepted, close_called, Turn, step, run, close,
  opened, handle, deliver, read_frame, read_end, retry_end, can_retry,
}

-- No dial is under way.
abbrev pub is_idle : Place → Bool
is_idle connecting_first = false
is_idle (dialing o last) = false
is_idle _ = true

-- A turn that yields nothing, dials nothing and leaves a closed client at rest.
pub record IsStill (t : Turn) : Type 0 where
  pub closed : t.events.client.closed ≡ true
  pub idle : is_idle t.events.place ≡ true
  pub event : t.event ≡ none
  pub dials : t.dials ≡ false

module _ (loads : Str → Option Value) (k : Clock) where
  step-IsStill :
      (p : Place) (a : Answer) (c : SseClient)
      → c.closed ≡ true
      → is_idle p ≡ true
      → IsStill (step loads k p a c)
  unfolding step close read_frame read_end handle retry_end can_retry
  step-IsStill p close_called c h i = record { closed = refl; idle = i; event = refl; dials = refl }
  step-IsStill reading (frame t text) c h i = ground arith
  step-IsStill reading ended c h i = ground arith
  step-IsStill reading (broken e) c h i = ground arith
  step-IsStill (sleeping stream_end last) slept c h i = ground arith
  step-IsStill (sleeping (failure e) last) slept c h i = ground arith
  step-IsStill p a c h i = ground arith

  run_still :
      (answers : List Answer) (s : Events)
      → s.client.closed ≡ true
      → is_idle s.place ≡ true
      → ((run loads k answers s).yields ≡ []) × ((run loads k answers s).dials ≡ 0)
  unfolding run
  run_still [] s h i = (refl, refl)
  run_still (a ∷ rest) s h i =
      let t = step-IsStill s.place a s.client h i in
      ground (
        arith,
        t.event,
        t.dials,
        run_still rest (step loads k s.place a s.client).events t.closed t.idle,
      )

  -- Once `close()` has been called while no dial is under way, the generator yields no event and
  -- dials no more.
  pub close_ends :
      (answers : List Answer) (p : Place) (c : SseClient)
      → is_idle p ≡ true
      → let r = run loads k (close_called ∷ answers) (record { client = c; place = p }) in
        (r.yields ≡ []) × (r.dials ≡ 0)
  unfolding run step close
  close_ends answers p c i =
      ground (arith, run_still answers (record { client = close c; place = p }) refl i)

  -- A `close()` during the dial of a reconnect is lost: `_open()` sets `_closed` back, and the
  -- generator goes on to yield the events of the new stream.
  pub close_lost :
      (o : Origin) (last : Option Exn) (c : SseClient) (t text : Str) (b : ℕ) (e : RealtimeEvent)
      → parse_event loads k t (b ∷ text) ≡ ok (some e)
      → is_set c.job_id ≡ false
      → let r =
          run loads k
            (close_called ∷ accepted ∷ frame t (b ∷ text) ∷ [])
            (record { client = c; place = dialing o last }) in
        (r.yields ≡ e ∷ []) × (r.events.client.closed ≡ false)
  unfolding run step close opened read_frame deliver
  close_lost o last c t text b e p j = ground (arith, p, j)
