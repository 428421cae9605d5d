-- ===== src/Http/Outcomes.antt =====
-- src/spooled/utils/http.py: what a request returns, and when it is replayed.
use spooled_sdk_python.Prelude.{
  ℕ, ap, Bool, true, false, none, some, Str, ◌≡◌, refl, ◌==◌, ◌⊎◌, ◌∙◌, arith, Bool-cases, inl, inr,
}
use spooled_sdk_python.Errors.{Exn, Result, ok, raised, Result-cases, is_ok}
use spooled_sdk_python.Effects.{Part, pure}
use spooled_sdk_python.Breaker.{CircuitBreaker}
use spooled_sdk_python.Retry.{Floats, RetryConfig, Env, with_retry}
use spooled_sdk_python.Retry.Attempts.{is_final, with_retry_once}
use spooled_sdk_python.Http.{
  Request, Client, Reply, HttpResponse, response, timeout_exception, request_error, is_idempotent,
}
use spooled_sdk_python.Http.Pipeline.{
  Net, call_for, send, parse_body, finish, fail_with, wants_refresh, execute_replay,
  execute_request, try_refresh_token, guarded, request,
}

module _ {S : Type 0} (net : Net S) where
  -- The call for the request that is made in state `u` is answered with a success, and `x` is what
  -- the body of that response reads as, in the state after that call.
  abbrev pub Answers : Request → S → HttpResponse → Result Reply × S → Type 0
  Answers q u r x =
      ((net.transport (call_for (net.cl.get u).auth_token q) u).0 ≡ ok (response r))
      × (r.is_success ≡ true)
      × (x ≡ parse_body net q r (send net q u).1)

  -- A request in state `s` is met by a 401, and the refresh that follows succeeds and ends in `u`.
  abbrev pub Refreshes : Request → S → S → Type 0
  Refreshes q s u =
      (r : HttpResponse) × ((send net q s).0 ≡ ok r)
      × ((r.status_code == 401) ≡ true)
      × (try_refresh_token net (net.cl.get s).auth_token (send net q s).1 ≡ (ok true, u))

  module _ (fl : Floats) (env : Env fl S) (cb : Part S CircuitBreaker) (now : S → ℕ)
      (show : ℕ → Str) where
    -- A request with no idempotency key and a method that is not idempotent, whose caller leaves
    -- `idempotent` open, goes through the breaker once and is not tried again, if it does not meet
    -- a rate limit that may be retried: a POST whose first attempt timed out, lost its connection
    -- or met a server error is not sent a second time by `with_retry`.
    pub request_unsafe_once :
        (config : RetryConfig fl) (q : Request) (s : S)
        → is_idempotent q.method q.body q.headers ≡ false
        → is_final false (guarded net fl env cb now show q s).0 ≡ true
        → request net fl env cb now show config false none q s ≡ guarded net fl env cb now show q s
    unfolding request
    request_unsafe_once config q s h f =
        let go = guarded net fl env cb now show q in
        rw
          (ap
            (λ b. with_retry fl env go config (some (λ attempt e delay. pure {S = S} (tt {0}))) b s)
            h)
          (with_retry_once fl env go config (some (λ attempt e delay. pure (tt {0}))) false s f)

  finish_ok :
      (q : Request) (r : HttpResponse) (s : S)
      → is_ok (finish net q r s).0 ≡ true
      → (r.is_success ≡ true) × (finish net q r s ≡ parse_body net q r s)
  unfolding finish fail_with
  finish_ok q r s h = ground arith

  send_ok :
      (q : Request) (s : S) (r : HttpResponse)
      → (send net q s).0 ≡ ok r
      → (net.transport (call_for (net.cl.get s).auth_token q) s).0 ≡ ok (response r)
  unfolding send
  send_ok q s r h = elim (Result-cases (net.transport (call_for (net.cl.get s).auth_token q) s).0) [
    | inl (response x, e) ↦ ground (arith, e)
    | inl (timeout_exception, e) ↦ ground (arith, e)
    | inl (request_error m, e) ↦ ground (arith, e)
    | inr (x, e) ↦ ground (arith, e)
  ]

  answered :
      (q : Request) (s : S) (r : HttpResponse) (x : Result Reply × S)
      → (send net q s).0 ≡ ok r
      → x ≡ finish net q r (send net q s).1
      → is_ok x.0 ≡ true
      → Answers q s r x
  answered q s r x e d h =
      let (y, f) = finish_ok q r (send net q s).1 (ground (arith, d)) in (send_ok q s r e, y, d ∙ f)

  replay_ok :
      (q : Request) (s : S)
      → is_ok (execute_replay net q s).0 ≡ true
      → (r : HttpResponse) × Answers q s r (execute_replay net q s)
  unfolding execute_replay
  replay_ok q s h = elim (Result-cases (send net q s).0) [
    | inl (r, e) ↦ (r, answered q s r _ e (ground (arith, e)) h)
    | inr (x, e) ↦ ground (arith, e)
  ]

  direct :
      (q : Request) (s : S) (r : HttpResponse)
      → (send net q s).0 ≡ ok r
      → wants_refresh net r (net.cl.get (send net q s).1) ≡ false
      → execute_request net q s ≡ finish net q r (send net q s).1
  unfolding execute_request
  direct q s r e n = ground (arith, e, n)

  moved :
      (q : Request) (u : S) (x y : Result Reply × S)
      → x ≡ y
      → ((r : HttpResponse) × Answers q u r y)
      → (r : HttpResponse) × Answers q u r x
  moved q u x y e (r, (a, s, p)) = (r, (a, s, e ∙ p))

  no_ok : {b : Bool} → b ≡ false → b ≡ true → ⊥
  no_ok n y = ground (arith, n, y)

  refused :
      (r : HttpResponse) (c : Client) → wants_refresh net r c ≡ true → (r.status_code == 401) ≡ true
  unfolding wants_refresh
  refused r c y = ground (arith, y)

  unsent :
      (q : Request) (s : S) (x : Exn)
      → (send net q s).0 ≡ raised x
      → is_ok (execute_request net q s).0 ≡ false
  unfolding execute_request
  unsent q s x e = ground (arith, e)

  module _ (q : Request) (s : S) (r : HttpResponse) (e : (send net q s).0 ≡ ok r)
      (y : wants_refresh net r (net.cl.get (send net q s).1) ≡ true) where
    refresh_raised :
        (x : Exn)
        → (try_refresh_token net (net.cl.get s).auth_token (send net q s).1).0 ≡ raised x
        → is_ok (execute_request net q s).0 ≡ false
    unfolding execute_request
    refresh_raised x e' = ground (arith, e, y, e')

    refresh_failed :
        (try_refresh_token net (net.cl.get s).auth_token (send net q s).1).0 ≡ ok false
        → is_ok (execute_request net q s).0 ≡ false
    unfolding execute_request wants_refresh finish fail_with
    refresh_failed e' = ground (arith, e, y, e')

    replayed :
        (try_refresh_token net (net.cl.get s).auth_token (send net q s).1).0 ≡ ok true
        → execute_request net q s
          ≡ execute_replay net q
              (try_refresh_token net (net.cl.get s).auth_token (send net q s).1).1
    unfolding execute_request
    replayed e' = ground (arith, e, y, e')

  -- A request that returns was answered with a success, and the reply is the body of that very
  -- response: either of the first one, or, where the first one was a 401 and the refresh after it
  -- succeeded, of the call that is made in the state after the refresh. So no response that is an
  -- error, no exception of httpx and no failed refresh is ever taken for a result.
  pub execute_request_ok :
      (q : Request) (s : S)
      → is_ok (execute_request net q s).0 ≡ true
      → (u : S) × (r : HttpResponse) × Answers q u r (execute_request net q s)
        × ((u ≡ s) ⊎ Refreshes q s u)
  execute_request_ok q s h =
      let t = (net.cl.get s).auth_token in
      let s' = (send net q s).1 in
      let u = (try_refresh_token net t s').1 in
      elim (Result-cases (send net q s).0) [
        | inr (x, e) ↦ absurd (no_ok (unsent q s x e) h)
        | inl (r, e) ↦ elim (Bool-cases (wants_refresh net r (net.cl.get s'))) [
          | inr n ↦ (s, r, answered q s r _ e (direct q s r e n) h, inl refl)
          | inl y ↦ elim (Result-cases (try_refresh_token net t s').0) [
            | inr (x, e') ↦ absurd (no_ok (refresh_raised q s r e y x e') h)
            | inl (false, e') ↦ absurd (no_ok (refresh_failed q s r e y e') h)
            | inl (true, e') ↦
                let same = replayed q s r e y e' in
                let (x, b) = moved q u _ _ same (replay_ok q u (ground (arith, same))) in
                (u, x, b, inr (r, e, refused r _ y, ap (λ z. (z, u)) e'))
          ]
        ]
      ]

  -- While this thread runs the refresh itself, a request is not met by another refresh: it is sent
  -- once, whatever it is answered, if httpx leaves the flag of the thread alone.
  pub execute_request_nested :
      (q : Request) (s : S)
      → (net.cl.get (send net q s).1).active ≡ true
      → execute_request net q s ≡ execute_replay net q s
  unfolding execute_request execute_replay wants_refresh
  execute_request_nested q s h = elim (Result-cases (send net q s).0) [
    | inl (r, e) ↦ ground (arith, e)
    | inr (x, e) ↦ ground (arith, e)
  ]
