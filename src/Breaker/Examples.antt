-- ===== src/Breaker/Examples.antt =====
-- The theorems on the circuit breaker at concrete calls, and tests.
use spooled_sdk_python.Prelude.{
  ℕ, suc, ◌+◌, true, some, Str, codes, List, [], ◌∷◌, ◌≡◌, refl, arith,
}
use spooled_sdk_python.Errors.{ok, raised, other, value_error}
use spooled_sdk_python.Effects.{M, Part}
use spooled_sdk_python.Breaker.{
  CircuitBreakerConfig, open_circuit, CircuitBreaker, create_circuit_breaker, is_allowed,
  is_ignored, record_failure, execute, open_error,
}
use spooled_sdk_python.Breaker.Invariant
use spooled_sdk_python.Breaker.Invariant.{IsValidConfig, IsValid, Call, asks, fails, step, ◌⟶◌}
use spooled_sdk_python.Breaker.Traces
use spooled_sdk_python.Breaker.Traces.{Failure}
use spooled_sdk_python.Breaker.Execute

abbrev config : CircuitBreakerConfig
config = record { enabled = true; failure_threshold = 2; success_threshold = 1; timeout = 30 }

config-IsValid : IsValidConfig config
config-IsValid = omega arith

abbrev tripped : CircuitBreaker
tripped = record {
  config = config;
  state = open_circuit;
  failure_count = 2;
  success_count = 0;
  last_failure_time = some 100;
}

tripped-IsValid : IsValid tripped
tripped-IsValid = ground arith

step-IsValid_example :
    IsValid (step tripped (asks 140)) × ((step tripped (asks 140)).config ≡ config)
step-IsValid_example = Invariant.step-IsValid tripped (asks 140) config-IsValid tripped-IsValid

abbrev failures : List Failure
failures = (10, value_error) ∷ (20, other 1) ∷ []

record_failures_trip_example :
    (Traces.record_failures (create_circuit_breaker config) failures).state ≡ open_circuit
unfolding is_ignored
record_failures_trip_example =
    Traces.record_failures_trip config failures refl (omega arith) (refl, (refl, tt))

-- A world of a breaker, a clock, and the number of calls that were made.
record World : Type 0 where
  breaker : CircuitBreaker
  clock : ℕ
  calls : ℕ

abbrev breaker_part : Part World CircuitBreaker
breaker_part = record {
  get = λ w. w.breaker;
  set = λ b w. record w { breaker = b };
  get-set = λ b w. refl;
  set-set = λ a b w. refl;
  set-get = λ w. refl;
}

abbrev clock_of : World → ℕ
clock_of w = w.clock

abbrev show : ℕ → Str
show n = codes "30"

abbrev request : M World ℕ
request w = (ok 7, record w { calls = suc w.calls; clock = w.clock + 1 })

abbrev at_time : ℕ → World
at_time t = record { breaker = tripped; clock = t; calls = 0 }

-- One failure is left until the breaker trips; the call takes one unit of time.
abbrev shaky : World
shaky = record {
  breaker = record (create_circuit_breaker config) { failure_count = 1 };
  clock = 10;
  calls = 0;
}

abbrev failing : M World ℕ
failing w = (raised value_error, record w { calls = suc w.calls; clock = w.clock + 1 })

abbrev after : World
after = record {
  breaker = record (create_circuit_breaker config) {
    state = open_circuit;
    failure_count = 2;
    last_failure_time = some 11;
  };
  clock = 40;
  calls = 1;
}

execute_trips_example :
    ((execute breaker_part clock_of show failing shaky).0 ≡ raised value_error)
    × (execute breaker_part clock_of show request after
        ≡ (raised (open_error breaker_part clock_of show after), after))
unfolding create_circuit_breaker
execute_trips_example =
    Execute.execute_trips breaker_part clock_of show failing request shaky after
      (record shaky { clock = 11; calls = 1 }) value_error refl refl refl refl refl
      (unfold is_ignored in refl) (unfold execute is_allowed record_failure is_ignored in refl)
      (omega arith)
