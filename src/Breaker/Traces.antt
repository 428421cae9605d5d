-- ===== src/Breaker/Traces.antt =====
-- src/spooled/utils/circuit_breaker.py: runs of calls, from the trip to the recovery.
use spooled_sdk_python.Prelude.{
  ℕ, zero, suc, ◌+◌, ◌≤◌, ◌<◌, leb, true, false, none, some, List, [], ◌∷◌, ◌≡◌, ◌↔◌, refl, arith,
  length, All, if◌then◌else◌,
}
use spooled_sdk_python.Errors.{Exn}
use spooled_sdk_python.Breaker.{
  CircuitBreakerConfig, CircuitState, closed, open_circuit, half_open, CircuitBreaker,
  create_circuit_breaker, is_allowed, record_success, is_ignored, record_failure,
}
use spooled_sdk_python.Breaker.Invariant.{IsValidConfig, IsValid}

-- A failed request: when it failed, and with what.
abbrev pub Failure : Type 0
Failure = ℕ × Exn

abbrev pub Counts : Failure → Type 0
Counts f = is_ignored f.1 ≡ false

abbrev pub record_failures : CircuitBreaker → List Failure → CircuitBreaker
record_failures b [] = b
record_failures b (f ∷ fs) = record_failures (record_failure f.0 f.1 b) fs

abbrev pub state_after : ℕ → ℕ → CircuitState
state_after threshold k = if leb threshold k then open_circuit else closed

record_failure-Counts :
    (b : CircuitBreaker) (f : Failure)
    → b.config.enabled ≡ true
    → Counts f
    → b.state ≡ state_after b.config.failure_threshold b.failure_count
    → let b' = record_failure f.0 f.1 b in
      (b'.config ≡ b.config)
      × (b'.failure_count ≡ suc b.failure_count)
      × (b'.state ≡ state_after b.config.failure_threshold (suc b.failure_count))
unfolding record_failure
record_failure-Counts b f on c e = ground arith

record_failures-state :
    (b : CircuitBreaker) (fs : List Failure)
    → b.config.enabled ≡ true
    → All Counts fs
    → b.state ≡ state_after b.config.failure_threshold b.failure_count
    → (record_failures b fs).state
      ≡ state_after b.config.failure_threshold (b.failure_count + length fs)
record_failures-state b [] on cs e = ground (arith, e)
record_failures-state b (f ∷ fs) on cs e =
    let b' = record_failure f.0 f.1 b in
    let step = record_failure-Counts b f on cs.0 e in
    ground (arith, step, record_failures-state b' fs)

-- A new breaker that is enabled, with a threshold of at least 1, is open after a run of failures
-- that count exactly if the run is at least as long as the threshold, and closed otherwise.
pub record_failures_trip :
    (c : CircuitBreakerConfig) (fs : List Failure)
    → c.enabled ≡ true
    → 1 ≤ c.failure_threshold
    → All Counts fs
    → (record_failures (create_circuit_breaker c) fs).state
      ≡ state_after c.failure_threshold (length fs)
unfolding create_circuit_breaker
record_failures_trip c fs on h cs =
    ground (arith, record_failures-state (create_circuit_breaker c) fs)

abbrev pub record_successes : ℕ → CircuitBreaker → CircuitBreaker
record_successes zero b = b
record_successes (suc k) b = record_successes k (record_success b)

record_success-half_open :
    (b : CircuitBreaker)
    → b.config.enabled ≡ true
    → b.state ≡ half_open
    → b.success_count + 1 < b.config.success_threshold
    → record_success b ≡ record b { success_count = b.success_count + 1 }
unfolding record_success
record_success-half_open b on h lt = ground arith

record_success_last :
    (b : CircuitBreaker)
    → b.config.enabled ≡ true
    → b.state ≡ half_open
    → b.success_count + 1 ≡ b.config.success_threshold
    → ((record_success b).state ≡ closed) × ((record_success b).failure_count ≡ 0)
unfolding record_success
record_success_last b on h e = ground arith

abbrev pub IsRecovered : CircuitBreaker → Type 0
IsRecovered b = (b.state ≡ closed) × (b.failure_count ≡ 0)

record_successes_close :
    (k : ℕ) (b : CircuitBreaker)
    → b.config.enabled ≡ true
    → b.state ≡ half_open
    → 1 ≤ k
    → b.success_count + k ≡ b.config.success_threshold
    → IsRecovered (record_successes k b)
record_successes_close zero b on h pos e = absurd (omega arith)
record_successes_close (suc zero) b on h pos e = record_success_last b on h (omega arith)
record_successes_close (suc (suc k)) b on h pos e =
    rw (record_success-half_open b on h (omega arith), record_successes)
      (record_successes_close (suc k) (record b { success_count = b.success_count + 1 }) on h
        (omega arith) (omega arith))

is_allowed_after_timeout :
    (b : CircuitBreaker) (now last : ℕ)
    → b.config.enabled ≡ true
    → b.state ≡ open_circuit
    → b.last_failure_time ≡ some last
    → last + b.config.timeout ≤ now
    → is_allowed now b ≡ (record b { state = half_open; success_count = 0 }, true)
unfolding is_allowed
is_allowed_after_timeout b now last on h e le = ground arith

-- An open, enabled breaker with a valid configuration, whose timeout is over, lets a request pass
-- and is half open; as many successes in a row as the success threshold then close it, with the
-- count of failures at 0.
pub recovery :
    (b : CircuitBreaker) (now last : ℕ)
    → IsValidConfig b.config
    → b.config.enabled ≡ true
    → b.state ≡ open_circuit
    → b.last_failure_time ≡ some last
    → last + b.config.timeout ≤ now
    → let (b', allowed) = is_allowed now b in
      let b'' = record_successes b.config.success_threshold b' in
      (allowed ≡ true) × (b'.state ≡ half_open) × IsRecovered b''
recovery b now last v on h e le =
    let probing = record b { state = half_open; success_count = 0 } in
    let closes =
      record_successes_close b.config.success_threshold probing on refl v.some_successes in
    rw (is_allowed_after_timeout b now last on h e le) (refl, refl, closes (omega arith))

-- An open, enabled breaker refuses a request, and is left as it is, exactly until its timeout is
-- over.
pub is_allowed_before_timeout :
    (b : CircuitBreaker) (now last : ℕ)
    → b.config.enabled ≡ true
    → b.state ≡ open_circuit
    → b.last_failure_time ≡ some last
    → (is_allowed now b ≡ (b, false)) ↔ (now < last + b.config.timeout)
unfolding is_allowed
is_allowed_before_timeout b now last on h e = (λ eq. ground arith, λ lt. ground arith)

free_at : CircuitBreaker → ℕ
free_at b = elim b.last_failure_time [ none ↦ 0 | some last ↦ last + b.config.timeout ]

is_allowed-free_at :
    (b : CircuitBreaker) → IsValid b → (now : ℕ) → free_at b ≤ now → (is_allowed now b).1 ≡ true
unfolding is_allowed free_at
is_allowed-free_at b v now h = ground arith

-- No breaker that satisfies the invariant refuses requests for ever: from some time on it allows
-- them.
pub is_allowed_later :
    (b : CircuitBreaker) → IsValid b → (t : ℕ) × ((now : ℕ) → t ≤ now → (is_allowed now b).1 ≡ true)
is_allowed_later b v = (free_at b, is_allowed-free_at b v)
