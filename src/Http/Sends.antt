-- ===== src/Http/Sends.antt =====
-- src/spooled/utils/http.py: how often a request is sent.
use spooled_sdk_python.Prelude.{
  ℕ, suc, ◌+◌, ◌*◌, ◌≤◌, Bool, true, false, Option, none, some, Str, ◌≡◌, refl, arith, Bool-cases,
  inl, inr, if◌then◌else◌,
}
use spooled_sdk_python.Errors.{Result-cases}
use spooled_sdk_python.Effects.{M, Part, pure}
use spooled_sdk_python.Breaker.{CircuitBreaker, is_allowed}
use spooled_sdk_python.Breaker.Execute.{admitted, recorded, execute_refused, execute_allowed}
use spooled_sdk_python.Retry.{Floats, RetryConfig, Env}
use spooled_sdk_python.Retry.Attempts.{with_retry_cost}
use spooled_sdk_python.Http.{
  Request, Call, HttpResponse, Answer, response, timeout_exception, request_error, Client,
}
use spooled_sdk_python.Http.Pipeline.{
  Net, call_for, store_rate_limit, set_active, refresh_once, try_refresh_with, try_refresh_token,
  received, send, fail_with, parse_body, finish, execute_replay, execute_request, guarded, request,
}

module _ {S : Type 0} (net : Net S) (count : S → ℕ)
    (call_cost : (k : Call) (s : S) → count (net.transport k s).1 ≤ count s + 1)
    (set_free : (c : Client) (s : S) → count (net.cl.set c s) ≤ count s)
    (refresh_free : (fn : M S (Unit {0})) (s : S)
      → net.refresh_token_fn ≡ some fn
      → count (fn s).1 ≤ count s) where
  received_free : (t : Option ℕ) (x : Answer) (s : S) → (received net t x s).1 ≡ s
  received_free t (response r) s = refl
  received_free t timeout_exception s = refl
  received_free t (request_error m) s = refl

  store_free : (r : HttpResponse) (s : S) → count (store_rate_limit net r s).1 ≤ count s
  unfolding store_rate_limit
  store_free r s = set_free _ s

  send_cost : (q : Request) (s : S) → count (send net q s).1 ≤ count s + 1
  unfolding send
  send_cost q s =
      let k = call_for (net.cl.get s).auth_token q in
      let s' = (net.transport k s).1 in
      elim (Result-cases (net.transport k s).0) [
        | inl (response r, e) ↦ ground (arith, e, call_cost k s, store_free r s')
        | inl (timeout_exception, e) ↦ ground (arith, e, call_cost k s)
        | inl (request_error m, e) ↦ ground (arith, e, call_cost k s)
        | inr (x, e) ↦ ground (arith, e, call_cost k s)
      ]

  finish_free : (q : Request) (r : HttpResponse) (s : S) → count (finish net q r s).1 ≤ count s
  unfolding finish fail_with parse_body
  finish_free q r s = ground arith

  active_free : (b : Bool) (s : S) → count (set_active net b s).1 ≤ count s
  active_free b s = set_free _ s

  refresh_once_free :
      (fn : M S (Unit {0})) (s : S)
      → net.refresh_token_fn ≡ some fn
      → count (refresh_once net fn s).1 ≤ count s
  unfolding refresh_once
  refresh_once_free fn s h =
      let s' = (set_active net true s).1 in
      elim (Result-cases (fn s').0) [
        | inl (u, e) ↦
            ground (arith, e, active_free true s, refresh_free fn s' h, active_free false (fn s').1)
        | inr (x, e) ↦
            ground (arith, e, active_free true s, refresh_free fn s' h, active_free false (fn s').1)
      ]

  refresh_with_free :
      (o : Option (M S (Unit {0}))) (t : Option Str) (s : S)
      → net.refresh_token_fn ≡ o
      → count (try_refresh_with net o t s).1 ≤ count s
  unfolding try_refresh_with
  refresh_with_free none t s h = omega arith
  refresh_with_free (some fn) t s h = ground (arith, refresh_once_free fn s h)

  refresh_free_all : (t : Option Str) (s : S) → count (try_refresh_token net t s).1 ≤ count s
  unfolding try_refresh_token
  refresh_free_all t s = refresh_with_free net.refresh_token_fn t s refl

  replay_cost : (q : Request) (s : S) → count (execute_replay net q s).1 ≤ count s + 1
  unfolding execute_replay
  replay_cost q s = elim (Result-cases (send net q s).0) [
    | inl (r, e) ↦ ground (arith, e, send_cost q s, finish_free q r (send net q s).1)
    | inr (x, e) ↦ ground (arith, e, send_cost q s)
  ]

  execute_request_cost : (q : Request) (s : S) → count (execute_request net q s).1 ≤ count s + 2
  unfolding execute_request
  execute_request_cost q s =
      let t = (net.cl.get s).auth_token in
      let s' = (send net q s).1 in
      let u = (try_refresh_token net t s').1 in
      elim (Result-cases (send net q s).0) [
        | inl (r, e) ↦ elim (Result-cases (try_refresh_token net t s').0) [
          | inl (usable, e') ↦ ground (
            arith,
            e,
            e',
            send_cost q s,
            finish_free q r s',
            refresh_free_all t s',
            replay_cost q u,
            finish_free q r u,
          )
          | inr (x, e') ↦
              ground (arith, e, e', send_cost q s, finish_free q r s', refresh_free_all t s')
        ]
        | inr (x, e) ↦ ground (arith, e, send_cost q s)
      ]

  module _ (fl : Floats) (env : Env fl S) (cb : Part S CircuitBreaker) (now : S → ℕ)
      (show : ℕ → Str)
      (breaker_free : (b : CircuitBreaker) (s : S) → count (cb.set b s) ≤ count s) where
    guarded_cost :
        (q : Request) (s : S) → count (guarded net fl env cb now show q s).1 ≤ count s + 2
    unfolding guarded
    guarded_cost q s =
        let a = admitted cb now show s in
        let fn = execute_request net q in
        let t = (fn a).1 in
        elim (Bool-cases (is_allowed (now s) (cb.get s)).1) [
          | inr refused ↦
              rw (execute_refused cb now show fn s refused)
                (omega (arith, breaker_free (is_allowed (now s) (cb.get s)).0 s))
          | inl allowed ↦ rw (execute_allowed cb now show fn s allowed) (
              omega (
                arith,
                breaker_free (is_allowed (now s) (cb.get s)).0 s,
                breaker_free (recorded (fn a).0 (now t) (cb.get t)) t,
                execute_request_cost q a,
              ))
        ]

    -- However a request ends, it is sent at most `2 * (max_retries + 1)` times: each attempt that
    -- `with_retry` makes sends it once, and once more after a refresh of the token; with
    -- `skip_retry` it is sent at most twice. This is in any measure of the state that a call of
    -- httpx raises by at most 1, and that the breaker, the clock and the token refresh, whose own
    -- requests are others, leave alone.
    pub request_cost :
        (sleep_free : (d : fl.F) (s : S) → count (env.sleep d s) ≤ count s)
        (draw_free : (d : fl.F) (s : S) → count (env.uniform d s).1 ≤ count s)
        (config : RetryConfig fl) (skip_retry : Bool) (idempotent : Option Bool) (q : Request)
        (s : S)
        → count (request net fl env cb now show config skip_retry idempotent q s).1
          ≤ count s + (if skip_retry then 2 else suc config.max_retries * 2)
    unfolding request
    request_cost sleep_free draw_free config true idempotent q s = guarded_cost q s
    request_cost sleep_free draw_free config false idempotent q s = omega (
      arith,
      with_retry_cost fl env (guarded net fl env cb now show q) config (some (λ _ _ _. pure tt)) _
          count 2 0 (guarded_cost q) (λ d u. omega (arith, sleep_free d u)) draw_free
          (λ n e d u. omega arith) s,
    )
