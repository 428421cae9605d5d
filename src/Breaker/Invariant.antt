-- ===== src/Breaker/Invariant.antt =====
-- src/spooled/utils/circuit_breaker.py: what holds of an enabled breaker between two calls.
use spooled_sdk_python.Prelude.{ℕ, ◌≤◌, ◌<◌, none, ◌≡◌, ◌≢◌, refl, arith}
use spooled_sdk_python.Errors.{Exn}
use spooled_sdk_python.Breaker.{
  CircuitBreakerConfig, CircuitState, closed, open_circuit, half_open, CircuitBreaker,
  create_circuit_breaker, is_allowed, record_success, record_failure, reset, get_state, get_stats,
}

-- The constraints `ge=1` and `gt=0` on the configuration.
pub record IsValidConfig (c : CircuitBreakerConfig) : Type 0 where
  pub some_failures : 1 ≤ c.failure_threshold
  pub some_successes : 1 ≤ c.success_threshold
  pub some_time : 1 ≤ c.timeout

pub record IsValid (b : CircuitBreaker) : Type 0 where
  pub closed_below : b.state ≡ closed → b.failure_count < b.config.failure_threshold
  pub closed_fresh : b.state ≡ closed → b.success_count ≡ 0
  pub half_open_below : b.state ≡ half_open → b.success_count < b.config.success_threshold
  pub open_dated : b.state ≡ open_circuit → b.last_failure_time ≢ none
  pub half_open_dated : b.state ≡ half_open → b.last_failure_time ≢ none

pub create_circuit_breaker-IsValid :
    (c : CircuitBreakerConfig) → IsValidConfig c → IsValid (create_circuit_breaker c)
unfolding create_circuit_breaker
create_circuit_breaker-IsValid c v = ground arith

-- The methods of a breaker, each with the clock that it reads; `execute` calls these.
pub data Call : Type 0 where
  asks : ℕ → Call
  succeeds : Call
  fails : ℕ → Exn → Call
  resets : Call
  -- `get_state()`, and `get_stats()`, which reads the state as well.
  looks shows : ℕ → Call

unfoldable pub step : CircuitBreaker → Call → CircuitBreaker
step b (asks now) = (is_allowed now b).0
step b succeeds = record_success b
step b (fails now e) = record_failure now e b
step b resets = reset b
step b (looks now) = (get_state now b).0
step b (shows now) = (get_stats now b).0

config-step : (b : CircuitBreaker) (c : Call) → (step b c).config ≡ b.config
unfolding step is_allowed record_success record_failure reset get_state get_stats
config-step b (asks now) = ground arith
config-step b succeeds = ground arith
config-step b (fails now e) = ground arith
config-step b resets = ground arith
config-step b (looks now) = ground arith
config-step b (shows now) = ground arith

-- Every method, `get_state` and `get_stats` included, and in every state, keeps the invariant of a
-- breaker whose configuration is valid, and leaves its configuration as it is.
pub step-IsValid :
    (b : CircuitBreaker) (c : Call)
    → IsValidConfig b.config
    → IsValid b
    → IsValid (step b c) × ((step b c).config ≡ b.config)
unfolding step is_allowed record_success record_failure reset get_state get_stats
step-IsValid b (asks now) k v = (ground arith, config-step b (asks now))
step-IsValid b succeeds k v = (ground arith, config-step b succeeds)
step-IsValid b (fails now e) k v = (ground arith, config-step b (fails now e))
step-IsValid b resets k v = (ground arith, config-step b resets)
step-IsValid b (looks now) k v = (ground arith, config-step b (looks now))
step-IsValid b (shows now) k v = (ground arith, config-step b (shows now))

-- The edges of the state machine that the docstrings describe.
infix 40 ◌⟶◌
pub data ◌⟶◌ : CircuitState → CircuitState → Type 0 where
  stay : {s : CircuitState} → s ⟶ s
  trip : closed ⟶ open_circuit
  probe : open_circuit ⟶ half_open
  recover : half_open ⟶ closed
  relapse : half_open ⟶ open_circuit

-- A call other than `reset` takes at most one edge of the state machine: in particular an open
-- breaker closes only by way of the half-open state.
pub step-⟶ : (b : CircuitBreaker) (c : Call) → c ≢ resets → b.state ⟶ (step b c).state
unfolding step is_allowed record_success record_failure get_state get_stats
step-⟶ b (asks now) h = grind (arith, stay, probe)
step-⟶ b succeeds h = grind (arith, stay, recover)
step-⟶ b (fails now e) h = grind (arith, stay, trip, relapse)
step-⟶ b resets h = absurd (h refl)
step-⟶ b (looks now) h = grind (arith, stay, probe)
step-⟶ b (shows now) h = grind (arith, stay, probe)
