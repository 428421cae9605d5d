-- ===== src/Realtime/Sse/Ends.antt =====
-- src/spooled/realtime/sse.py: how the generator ends.
use spooled_sdk_python.Prelude.{
  ℕ, true, false, Option, some, List, [], ◌∷◌, Str, ◌≡◌, refl, ap, arith, is_set,
}
use spooled_sdk_python.Json.{Value}
use spooled_sdk_python.Errors.{Exn, Result, ok, raised}
use spooled_sdk_python.Realtime.Events.{RealtimeEvent, Clock}
use spooled_sdk_python.Realtime.Frames.{closes_job_stream, parse_event}
use spooled_sdk_python.Realtime.Sse.{
  SseClient, reading, dialing, over, Origin, stream_end, failure, Answer, frame, ended, rejected,
  close_called, step, run, close, refused, handle, is_fatal, deliver, read_frame, read_end,
}

module _ (loads : Str → Option Value) (k : Clock) where
  -- A generator that is over stays over: it yields nothing and dials no more.
  pub run_over :
      (answers : List Answer) (o : Result (Unit {0})) (c : SseClient)
      → let r = run loads k answers (record { client = c; place = over o }) in
        (r.yields ≡ []) × (r.dials ≡ 0) × (r.events.place ≡ over o)
  unfolding run step
  run_over [] o c = (refl, refl, refl)
  run_over (close_called ∷ rest) o c = ground (arith, run_over rest o (close c))
  run_over (a ∷ rest) o c = ground (arith, run_over rest o c)

  -- On a job's stream, the event that ends it is still yielded; once the server then closes the
  -- stream, the generator returns and closes the client: it never dials again for that job,
  -- whatever else happens.
  pub job_stream_ends :
      (t text : Str) (e : RealtimeEvent) (c : SseClient) (rest : List Answer)
      → c.closed ≡ false
      → is_set c.job_id ≡ true
      → (b : ℕ) → parse_event loads k t (b ∷ text) ≡ ok (some e)
      → closes_job_stream e ≡ ok true
      → let r =
          run loads k
            (frame t (b ∷ text) ∷ ended ∷ rest)
            (record { client = c; place = reading }) in
        (r.yields ≡ e ∷ []) × (r.dials ≡ 0) × (r.events.place ≡ over (ok tt))
  unfolding run step read_frame read_end deliver close
  job_stream_ends t text e c rest n j b p q =
      let c' = record c { reconnect_attempts = 0; finished = true } in
      let first : read_frame loads k t (b ∷ text) c ≡ record {
        events = record { client = c'; place = reading };
        event = some e;
        dials = false;
      } =
        ground (arith, n, j, p, q) in
      let (y, d, o) = run_over rest (ok tt) (close c') in
      rw first (ap (λ es. e ∷ es) y, omega (arith, d), o)

  -- A rejection that no retry can help ends the generator with that error, whichever dial it
  -- answers, if the client has not been closed.
  pub rejected_fatal :
      (o : Origin) (last : Option Exn) (e : Exn) (c : SseClient)
      → is_fatal e ≡ true
      → c.closed ≡ false
      → (step loads k (dialing o last) (rejected e) c).events.place ≡ over (raised e)
  unfolding step handle refused
  rejected_fatal stream_end last e c f n = ground arith
  rejected_fatal (failure x) last e c f n = ground arith
