-- ===== src/Http/Async.antt =====
-- src/spooled/utils/async_http.py, with `with_retry_async` of src/spooled/utils/retry.py: the
-- asynchronous HTTP client, one request at a time. What it shares with the other client (the
-- headers, the body of a request, the parsing of a response) is that of `Http.Pipeline`; `active`
-- is whether the current task's `_REFRESHING` holds this client. The lazy creation of httpx's
-- client is left out.
pub mod Same
use spooled_sdk_python.Prelude.{
  ℕ, zero, suc, ◌+◌, ◌==◌, ◌&&◌, not, Bool, true, false, Option, none, some, Str, codes, ◌++◌,
  is_some, if◌then◌else◌,
}
use spooled_sdk_python.Errors.{
  Exn, spooled, runtime_error, rate_limit_retry_after, circuit_breaker_open_error,
}
use spooled_sdk_python.Effects.{M, Part, pure, raise, gets, modify, catch, ◌>>=◌, ◌>>◌}
use spooled_sdk_python.Breaker.{CircuitBreaker, is_allowed, record_success, record_failure}
use spooled_sdk_python.Retry.{Floats, RetryConfig, Env, should_retry, calculate_delay}
use spooled_sdk_python.Http.{Request, HttpResponse, Reply, Client, is_idempotent}
use spooled_sdk_python.Http.Pipeline.{Net, same_token, token, set_active, send, finish}

-- `with_retry_async`: the rounds of the loop that are left, the attempt, and `last_error`.
module _ (fl : Floats) {S : Type 0} (env : Env fl S) where
  open fl use {F}

  module _ {A : Type 0} (fn : M S A) (c : RetryConfig fl)
      (on_retry : Option (ℕ → Exn → F → M S (Unit {0}))) (idempotent : Bool) where
    abbrev pub tell : Option (ℕ → Exn → F → M S (Unit {0})) → ℕ → Exn → F → M S (Unit {0})
    tell none attempt e delay = pure tt
    tell (some f) attempt e delay = f attempt e delay

    abbrev pub left_over : Option Exn → M S A
    left_over none = raise runtime_error
    left_over (some e) = raise e

    unfoldable pub retry_rounds : ℕ → ℕ → Option Exn → M S A
    retry_rounds zero attempt last = left_over last
    retry_rounds (suc rounds) attempt last = catch fn λ e.
        let next = retry_rounds rounds (attempt + 1) (some e) in
        let again : M S A = (do
          delay ← calculate_delay fl env attempt c (rate_limit_retry_after e)
          tell on_retry attempt e delay
          modify (env.sleep delay)
          next) in
        if not (should_retry fl e attempt c idempotent) then raise e else again

    unfoldable pub with_retry_async : M S A
    with_retry_async = retry_rounds (c.max_retries + 1) 1 none

module _ {S : Type 0} (net : Net S) where
  open net use {cl, refresh_token_fn}

  -- `_try_refresh_token`.
  abbrev pub refresh_by : M S (Unit {0}) → M S Bool
  refresh_by fn = do
    set_active net true
    done ← catch (fn >> pure true) (λ e. pure false)
    set_active net false
    pure done

  unfoldable pub refresh_async : Option (M S (Unit {0})) → Option Str → M S Bool
  refresh_async none before = pure false
  refresh_async (some fn) before = do
    now ← token net
    if not (same_token now before) then pure true else refresh_by fn

  -- `_execute_request`, with `_allow_refresh`, and the replay that it returns where that is set.
  unfoldable pub may_refresh : Bool → HttpResponse → Client → Bool
  may_refresh allow r c =
      not r.is_success
      && (r.status_code == 401 && (allow && (is_some refresh_token_fn && not c.active)))

  abbrev pub refreshed : M S Reply → Option Str → Request → HttpResponse → M S Reply
  refreshed replay before q r = do
    usable ← refresh_async refresh_token_fn before
    if usable then replay else finish net q r

  abbrev pub after_send : Bool → M S Reply → Option Str → Request → HttpResponse → M S Reply
  after_send allow replay before q r = do
    c ← gets cl.get
    if may_refresh allow r c then refreshed replay before q r else finish net q r

  unfoldable pub execute_body : Bool → M S Reply → Request → M S Reply
  execute_body allow replay q = do
    before ← token net
    r ← send net q
    after_send allow replay before q r

  -- Where the flag is not set there is no replay, whatever stands in its place.
  unfoldable pub execute_async : Bool → Request → M S Reply
  execute_async false q = execute_body false (raise runtime_error) q
  execute_async true q = execute_body true (execute_body false (raise runtime_error) q) q

  module _ (fl : Floats) (env : Env fl S) (cb : Part S CircuitBreaker) (now : S → ℕ)
      (show : ℕ → Str) where
    -- `execute_with_cb` of `request`.
    unfoldable pub execute_with_cb : Request → M S Reply
    execute_with_cb q s =
        let (b, allowed) = is_allowed (now s) (cb.get s) in
        let t = cb.set b s in
        let refuse : M S Reply = raise (
          spooled (
            circuit_breaker_open_error (
              codes "Circuit breaker is open. Will retry after "
              ++ (show (cb.get t).config.timeout ++ codes "s")))) in
        let attempt : M S Reply =
          (catch
            (do
              r ← execute_async true q
              modify (λ u. cb.set (record_success (cb.get u)) u)
              pure r)
            (λ e. do modify (λ u. cb.set (record_failure (now u) e (cb.get u)) u); raise e)) in
        (if not allowed then refuse else attempt) t

    unfoldable pub request_async : RetryConfig fl → Bool → Option Bool → Request → M S Reply
    request_async config skip_retry idempotent q =
        let safe : Bool = elim idempotent [
          | none ↦ is_idempotent q.method q.body q.headers
          | some b ↦ b
        ] in
        if skip_retry
        then execute_with_cb q
        else with_retry_async fl env (execute_with_cb q) config (some (λ attempt e delay. pure tt))
            safe
