-- ===== src/Realtime/Unified/GaveUp.antt =====
-- src/spooled/realtime/unified.py: a client for server-sent events after the server has refused a
-- reconnect for good.
use spooled_sdk_python.Prelude.{
  ℕ, ◌&&◌, not, ltb, Bool, true, false, some, List, [], ◌∷◌, ◌++◌, Str, ◌≡◌, refl, ◌∙◌, ap, arith,
  if_true, if_false,
}
use spooled_sdk_python.Errors.{Exn, raised}
use spooled_sdk_python.Realtime.Sse.{disconnected, is_fatal, one_if}
use spooled_sdk_python.Realtime.Socket.{Took}
use spooled_sdk_python.Realtime.Unified.{
  Unified, is_open, orphan, drop, dialed, answered, Call, connects, reconnects, disconnects,
  subscribes, unsubscribes, receives, ends, breaks, stale_breaks, fires, stray_fires, answers, step,
  run,
}

-- What happens without a call of a method.
abbrev is_background : Call → Bool
is_background (receives closes) = true
is_background (ends now) = true
is_background (breaks now) = true
is_background (stale_breaks now) = true
is_background fires = true
is_background stray_fires = true
is_background (answers took now r) = true
is_background _ = false

unfoldable pub all_background : List Call → Bool
all_background [] = true
all_background (m ∷ rest) = is_background m && all_background rest

-- No connection, no timer, no dial, and no thread that reads.
abbrev pub IsIdle : Unified → Type 0
IsIdle c =
    (is_open c ≡ false) × (c.timer ≡ false) × (c.strays ≡ 0) × (c.stale ≡ 0) × (c.dialing ≡ [])

closed : (c : Unified) → is_open c ≡ false → c.sse && is_open c && not c.stop_event ≡ false
closed c o = ground (arith, o)

dropped : (c : Unified) → is_open (drop c) ≡ false
dropped c = ground arith

module _ (quote : Str → Str) (stable : ℕ) where
  idle-step :
      (m : Call) (c : Unified) → is_background m ≡ true → IsIdle c → step quote stable m c ≡ c
  unfolding step
  idle-step (receives closes) c b (o, t, s, a, d) = if_false _ _ _ (closed c o)
  idle-step (ends now) c b (o, t, s, a, d) = if_false _ _ _ (closed c o)
  idle-step (breaks now) c b (o, t, s, a, d) = if_false _ _ _ (ap (λ x. x && not c.stop_event) o)
  idle-step (stale_breaks now) c b (o, t, s, h, d) = if_false _ _ _ (ap (ltb 0) h)
  idle-step fires c b (o, t, s, a, d) = if_false _ _ _ t
  idle-step stray_fires c b (o, t, s, a, d) = if_false _ _ _ (ap (ltb 0) s)
  idle-step (answers took now r) c b (o, t, s, h, d) =
      ap (λ urls. answered stable took now r urls c) d
  idle-step (connects f took now r) c b h = cc
  idle-step (reconnects f took now r) c b h = cc
  idle-step disconnects c b h = cc
  idle-step (subscribes f took now r) c b h = cc
  idle-step (unsubscribes f took) c b h = cc

  idle-run :
      (ms : List Call) (c : Unified)
      → all_background ms ≡ true
      → IsIdle c
      → run quote stable ms c ≡ c
  unfolding run all_background
  idle-run [] c b h = refl
  idle-run (m ∷ ms) c b h =
      let e = idle-step m c (ground (arith, b)) h in
      ap (run quote stable ms) e ∙ idle-run ms c (ground (arith, b)) h

  refused_for_good :
      (took : Took) (now : ℕ) (e : Exn) (url : Str) (c : Unified)
      → c.sse ≡ true
      → c.dialing ≡ url ∷ []
      → is_fatal e ≡ true
      → step quote stable (answers took now (raised e)) c ≡ record (drop (orphan c)) {
        last_error = some e;
        state = disconnected;
        dialing = [];
        error_events = c.error_events ++ e ∷ [];
      }
  unfolding step dialed
  refused_for_good took now e url c s d f =
      ap (λ urls. answered stable took now (raised e) urls c) d
      ∙ (if_true _ _ _ f
          ∙ ap
              (λ (x : Unified). record x {
                last_error = some e;
                state = disconnected;
                error_events = x.error_events ++ e ∷ [];
              })
              (if_true _ _ (record c { dialing = [] }) s))

  -- Where a client for server-sent events has no connection, one timer dials, no other one waits
  -- and no thread reads, and the server refuses that dial with an error that is not to be retried,
  -- the client keeps the error, dispatches one "error" event with it and is disconnected, no background activity changes that or makes a
  -- timer wait again, and the event that would end `events()` is as it was.
  pub gave_up_stays :
      (took : Took) (now : ℕ) (e : Exn) (url : Str) (ms : List Call) (c : Unified)
      → c.sse ≡ true
      → is_open c ≡ false
      → c.timer ≡ false
      → c.strays ≡ 0
      → c.stale ≡ 0
      → c.dialing ≡ url ∷ []
      → is_fatal e ≡ true
      → all_background ms ≡ true
      → let d = run quote stable (answers took now (raised e) ∷ ms) c in
        (d.state ≡ disconnected)
        × (d.last_error ≡ some e)
        × (d.error_events ≡ c.error_events ++ e ∷ [])
        × (is_open d ≡ false)
        × (d.timer ≡ false)
        × (d.stop_event ≡ c.stop_event)
  unfolding run step
  gave_up_stays took now e url ms c s o t r a d f b =
      let g = record (drop (orphan c)) {
        last_error = some e;
        state = disconnected;
        dialing = [];
        error_events = c.error_events ++ e ∷ [];
      } in
      let h : run quote stable (answers took now (raised e) ∷ ms) c ≡ g =
        ap (run quote stable ms) (refused_for_good took now e url c s d f)
        ∙ idle-run ms g b (dropped c, t, r, omega (arith, a, ap one_if o), refl) in
      (
        ap (λ x. x.state) h,
        ap (λ x. x.last_error) h,
        ap (λ x. x.error_events) h,
        ap is_open h ∙ dropped c,
        ap (λ x. x.timer) h ∙ t,
        ap (λ x. x.stop_event) h,
      )
