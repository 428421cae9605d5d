-- ===== src/Breaker.antt =====
-- src/spooled/utils/circuit_breaker.py: the circuit breaker. A method that runs under the lock is
-- one function from the breaker to the breaker; `now` is what `time.time()` reads. Times and the
-- timeout are whole numbers of a unit of the reader's choice, so sums of them are exact.
pub mod Invariant
pub mod Traces
pub mod Execute
mod Examples
use spooled_sdk_python.Prelude.{
  ℕ, ◌+◌, leb, Bool, true, false, not, ◌&&◌, Option, none, some, Str, codes, ◌++◌, if◌then◌else◌,
}
use spooled_sdk_python.Errors.{Exn, spooled, is_retryable, circuit_breaker_open_error}
use spooled_sdk_python.Effects.{M, Part, pure, raise, gets, modify, catch, ◌>>=◌, ◌>>◌}

-- `CircuitBreakerConfig` of src/spooled/config.py.
pub record CircuitBreakerConfig : Type 0 where
  pub enabled : Bool
  pub failure_threshold : ℕ
  pub success_threshold : ℕ
  pub timeout : ℕ

pub data CircuitState : Type 0 where
  closed open_circuit half_open : CircuitState

pub record CircuitBreaker : Type 0 where
  pub config : CircuitBreakerConfig
  pub state : CircuitState
  pub failure_count : ℕ
  pub success_count : ℕ
  pub last_failure_time : Option ℕ

unfoldable pub create_circuit_breaker : CircuitBreakerConfig → CircuitBreaker
create_circuit_breaker c = record {
  config = c;
  state = closed;
  failure_count = 0;
  success_count = 0;
  last_failure_time = none;
}

-- `time.time() - last >= timeout`.
abbrev pub timed_out : ℕ → ℕ → Option ℕ → Bool
timed_out now timeout none = false
timed_out now timeout (some last) = leb (last + timeout) now

unfoldable pub check_open : ℕ → CircuitState → CircuitBreaker → CircuitBreaker
check_open now open_circuit b =
    if timed_out now b.config.timeout b.last_failure_time
    then record b { state = half_open; success_count = 0 }
    else b
check_open now _ b = b

-- `_get_state_unlocked`, and `get_state`, which only takes the lock.
unfoldable pub get_state : ℕ → CircuitBreaker → CircuitBreaker × CircuitState
unfolding check_open
get_state now b = let b' = check_open now b.state b in (b', b'.state)

abbrev pub is_open : CircuitState → Bool
is_open open_circuit = true
is_open _ = false

unfoldable pub is_allowed : ℕ → CircuitBreaker → CircuitBreaker × Bool
unfolding get_state
is_allowed now b =
    if not b.config.enabled
    then (b, true)
    else (let (b', state) = get_state now b in (b', not (is_open state)))

unfoldable pub success_in : CircuitState → CircuitBreaker → CircuitBreaker
success_in half_open b =
    if leb b.config.success_threshold (b.success_count + 1)
    then record b { state = closed; failure_count = 0; success_count = 0 }
    else record b { success_count = b.success_count + 1 }
success_in closed b = record b { failure_count = 0 }
success_in open_circuit b = b

unfoldable pub record_success : CircuitBreaker → CircuitBreaker
unfolding success_in
record_success b = if not b.config.enabled then b else success_in b.state b

-- `isinstance(error, SpooledError) and not error.is_retryable()`.
unfoldable pub is_ignored : Exn → Bool
is_ignored (spooled e) = not (is_retryable e)
is_ignored _ = false

-- The new state after a failure that has been counted.
unfoldable pub failure_in : CircuitState → CircuitBreaker → CircuitBreaker
failure_in half_open b = record b { state = open_circuit }
failure_in closed b =
    if leb b.config.failure_threshold b.failure_count then record b { state = open_circuit } else b
failure_in open_circuit b = b

unfoldable pub record_failure : ℕ → Exn → CircuitBreaker → CircuitBreaker
unfolding failure_in
record_failure now e b =
    if not b.config.enabled
    then b
    else if is_ignored e
    then b
    else failure_in b.state
        (record b { failure_count = b.failure_count + 1; last_failure_time = some now })

unfoldable pub reset : CircuitBreaker → CircuitBreaker
reset b = record b {
  state = closed;
  failure_count = 0;
  success_count = 0;
  last_failure_time = none;
}

-- What `get_stats` shows.
pub record Stats : Type 0 where
  pub state : CircuitState
  pub failure_count : ℕ
  pub success_count : ℕ
  pub last_failure_time : Option ℕ
  pub config : CircuitBreakerConfig

unfoldable pub get_stats : ℕ → CircuitBreaker → CircuitBreaker × Stats
unfolding get_state
get_stats now b =
    let (b', st) = get_state now b in
    (
      b',
      record {
        state = st;
        failure_count = b'.failure_count;
        success_count = b'.success_count;
        last_failure_time = b'.last_failure_time;
        config = b'.config;
      },
    )

-- `execute` over a state that holds the breaker among other things: `fn` may change both. `show`
-- writes the timeout in the message.
module _ {S : Type 0} (cb : Part S CircuitBreaker) (now : S → ℕ) (show : ℕ → Str) where
  unfoldable pub check_allowed : M S Bool
  check_allowed s = let (b', allowed) = is_allowed (now s) (cb.get s) in pure allowed (cb.set b' s)

  abbrev pub on_success : M S (Unit {0})
  on_success = modify (λ s. cb.set (record_success (cb.get s)) s)

  abbrev pub on_failure : Exn → M S (Unit {0})
  on_failure e = modify (λ s. cb.set (record_failure (now s) e (cb.get s)) s)

  abbrev pub open_error : S → Exn
  open_error s = spooled (
      circuit_breaker_open_error (
        codes "Circuit breaker is open. Will retry after "
        ++ (show (cb.get s).config.timeout ++ codes "s")))

  unfoldable pub execute : {A : Type 0} → M S A → M S A
  unfolding check_allowed
  execute {A} fn = do
    allowed ← check_allowed
    let refuse : M S A = λ s. raise (open_error s) s
    let attempt : M S A = catch (do r ← fn; on_success; pure r) (λ e. do on_failure e; raise e)
    if allowed then attempt else refuse
