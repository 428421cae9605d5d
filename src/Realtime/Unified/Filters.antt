-- ===== src/Realtime/Unified/Filters.antt =====
-- src/spooled/realtime/unified.py: which stream a client for server-sent events has open, after a
-- connection that broke, and after a change of the subscription.
use spooled_sdk_python.Prelude.{
  ℕ, ◌-◌, ◌<◌, ◌&&◌, not, ltb, true, false, Option, none, some, [], ◌∷◌, ◌++◌, Str, codes, ◌≡◌,
  refl, ◌∙◌, ap, arith, if_true, if_false,
}
use spooled_sdk_python.Errors.{ok}
use spooled_sdk_python.Realtime.Sse.{disconnected, connecting, connected, reconnecting}
use spooled_sdk_python.Realtime.Socket.{SubscriptionFilter, filter_mem, Took, is_connected, is_up}
use spooled_sdk_python.Realtime.Unified.{
  Unified, Done, orphan, drop, is_open, build_sse_url, filter_path, open_sse, dialed, connect,
  disconnect, reconnect, subscribe, schedule_reconnect, retry_or_end, handle_disconnect,
  begin_reconnect, connects, subscribes, breaks, stale_breaks, fires, answers, step, run,
}

module _ (quote : Str → Str) (stable : ℕ) where
  -- `_handle_disconnect`, where reconnecting is on and attempts are left.
  schedules :
      (now : ℕ) (c : Unified)
      → c.sse ≡ true
      → c.auto_reconnect ≡ true
      → c.reconnect_attempts < c.max_reconnect_attempts
      → handle_disconnect stable now c ≡ schedule_reconnect (drop c)
  unfolding handle_disconnect
  schedules now c s a l =
      ap retry_or_end (if_true _ (drop c) _ s)
      ∙ if_true (c.auto_reconnect && ltb c.reconnect_attempts c.max_reconnect_attempts) _ _
          (ground (arith, a, l))

  breaks-schedules :
      (now : ℕ) (url : Str) (c : Unified)
      → c.sse ≡ true
      → c.stream ≡ some url
      → c.stop_event ≡ false
      → c.auto_reconnect ≡ true
      → c.reconnect_attempts < c.max_reconnect_attempts
      → step quote stable (breaks now) c ≡ schedule_reconnect (drop c)
  unfolding step
  breaks-schedules now url c s u e a l =
      if_true (is_open c && not c.stop_event) _ _ (ground (arith, s, u, e)) ∙ schedules now c s a l

  redials :
      (took : Took) (now : ℕ) (c : Unified)
      → c.sse ≡ true
      → c.dialing ≡ []
      → c.timer ≡ true
      → is_up c.state ≡ false
      → (run quote stable (fires ∷ answers took now (ok tt) ∷ []) c).stream
        ≡ some (build_sse_url quote c.base_url none c.subscriptions)
  unfolding run step begin_reconnect dialed open_sse
  redials took now c s d t u = simp (s, d, t, u) refl

  -- Where a stream of server-sent events breaks, whichever it is, while reconnecting is on,
  -- attempts are left and no other timer dials, the reconnect that the server accepts opens the
  -- stream of the first subscription, or the one of all events where there is no subscription.
  pub reconnect_url :
      (took : Took) (n m : ℕ) (url : Str) (c : Unified)
      → c.sse ≡ true
      → c.stream ≡ some url
      → c.stop_event ≡ false
      → c.auto_reconnect ≡ true
      → c.reconnect_attempts < c.max_reconnect_attempts
      → c.dialing ≡ []
      → (run quote stable (breaks n ∷ fires ∷ answers took m (ok tt) ∷ []) c).stream
        ≡ some (build_sse_url quote c.base_url none c.subscriptions)
  unfolding run schedule_reconnect
  reconnect_url took n m url c s u e a l d =
      ap (λ x. (run quote stable (fires ∷ answers took m (ok tt) ∷ []) x).stream)
        (breaks-schedules n url c s u e a l)
      ∙ redials took m (schedule_reconnect (drop c)) s d refl refl

  dials-opens :
      (f : Option SubscriptionFilter) (took : Took) (now : ℕ) (c : Unified)
      → c.sse ≡ true
      → is_up c.state ≡ false
      → connect quote f took now (ok tt) c ≡ (
        ok tt,
        open_sse
            (build_sse_url quote c.base_url f c.subscriptions)
            (record c { state = connecting }),
      )
  unfolding connect dialed
  dials-opens f took now c s u = if_false _ _ _ u ∙ if_true _ _ _ s

  connects-opens :
      (f : SubscriptionFilter) (took : Took) (now : ℕ) (c : Unified)
      → c.sse ≡ true
      → is_up c.state ≡ false
      → step quote stable (connects (some f) took now (ok tt)) c
        ≡ open_sse
            (build_sse_url quote c.base_url (some f) c.subscriptions)
            (record c { state = connecting })
  unfolding step
  connects-opens f took now c s u = ap (λ (x : Done). x.1) (dials-opens (some f) took now c s u)

  -- Where a client for server-sent events that has no subscription and is disconnected, with
  -- reconnecting on, attempts left and no timer that dials, connects with a filter, its stream is
  -- the one of that filter; where that stream then breaks, and the server accepts the reconnect of
  -- the timer, the client has the stream of all events.
  pub connect_filter_lost :
      (f : SubscriptionFilter) (took : Took) (k n m : ℕ) (c : Unified)
      → c.sse ≡ true
      → c.state ≡ disconnected
      → c.subscriptions ≡ []
      → c.auto_reconnect ≡ true
      → c.reconnect_attempts < c.max_reconnect_attempts
      → c.dialing ≡ []
      → let d = run quote stable (connects (some f) took k (ok tt) ∷ []) c in
        (d.stream ≡ some (c.base_url ++ filter_path quote (some f)))
        × ((run quote stable (breaks n ∷ fires ∷ answers took m (ok tt) ∷ []) d).stream
            ≡ some (c.base_url ++ codes "/api/v1/events"))
  unfolding run build_sse_url open_sse
  connect_filter_lost f took k n m c s t u a l d =
      let e = connects-opens f took k c s (ap is_up t) in
      let url = build_sse_url quote c.base_url (some f) c.subscriptions in
      (
        ap (λ x. x.stream) e,
        ap (λ x. (run quote stable (breaks n ∷ fires ∷ answers took m (ok tt) ∷ []) x).stream) e
            ∙ (reconnect_url took n m url (open_sse url (record c { state = connecting })) s refl
                  refl a l d
                ∙ ap (λ fs. some (build_sse_url quote c.base_url none fs)) u),
      )

  subscribes-opens :
      (f : SubscriptionFilter) (took : Took) (now : ℕ) (c : Unified)
      → c.sse ≡ true
      → c.state ≡ connected
      → filter_mem f c.subscriptions ≡ false
      → let d = disconnect (record c { subscriptions = c.subscriptions ++ f ∷ [] }) in
        step quote stable (subscribes f took now (ok tt)) c
        ≡ open_sse
            (build_sse_url quote d.base_url (some f) d.subscriptions)
            (record d { state = connecting })
  unfolding step subscribe reconnect disconnect
  subscribes-opens f took now c s t g =
      ap (λ (x : Done). x.1)
        (if_false _ _ _ g
          ∙ (if_false _ _ _ (ap (λ x. not (is_connected x)) t)
              ∙ (if_true _ _ _ s
                  ∙ dials-opens (some f) took now
                      (disconnect (record c { subscriptions = c.subscriptions ++ f ∷ [] })) s
                      refl)))

  -- Where a client for server-sent events whose stream is open, with reconnecting on and at least
  -- one attempt allowed, subscribes to a filter that it does not have yet, the server accepts, and
  -- the thread that read the stream before finds it closed only after that, this thread closes the
  -- new stream and schedules a reconnect.
  pub stale_reader_closes :
      (f : SubscriptionFilter) (took : Took) (k n : ℕ) (c : Unified)
      → c.sse ≡ true
      → c.state ≡ connected
      → filter_mem f c.subscriptions ≡ false
      → is_open c ≡ true
      → c.auto_reconnect ≡ true
      → 0 < c.max_reconnect_attempts
      → let d = run quote stable (subscribes f took k (ok tt) ∷ stale_breaks n ∷ []) c in
        (d.stream ≡ none) × (d.state ≡ reconnecting) × (d.timer ≡ true)
  unfolding run step disconnect open_sse schedule_reconnect
  stale_reader_closes f took k n c s t g o a l =
      let b = disconnect (record c { subscriptions = c.subscriptions ++ f ∷ [] }) in
      let d =
        open_sse (build_sse_url quote b.base_url (some f) b.subscriptions)
          (record b { state = connecting }) in
      let e : run quote stable (subscribes f took k (ok tt) ∷ stale_breaks n ∷ []) c
          ≡ schedule_reconnect (drop (orphan (record d { stale = d.stale - 1 }))) =
        ap (step quote stable (stale_breaks n)) (subscribes-opens f took k c s t g)
        ∙ (if_true (ltb 0 d.stale) _ _ (ground (arith, o))
            ∙ schedules n (orphan (record d { stale = d.stale - 1 })) s a l) in
      (ap (λ x. x.stream) e ∙ simp s refl, ap (λ x. x.state) e, ap (λ x. x.timer) e)
