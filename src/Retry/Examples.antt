-- ===== src/Retry/Examples.antt =====
-- The theorems on retries at concrete runs. The floats are fixed-point numbers in quarters, which
-- satisfy the laws of `Floats`.
use Prim.Native.Nat.{◌/◌, ◌*◌}
use spooled_sdk_python.Prelude.{
  ℕ, zero, suc, ◌+◌, ◌-◌, ◌≤◌, ◌<◌, ltb, Bool, true, false, not, Option, none, some, Str, codes,
  ◌≡◌, ◌⊎◌, inl, inr, refl, ap, arith, tests, if◌then◌else◌,
}
use spooled_sdk_python.Prelude
use spooled_sdk_python.Errors.{
  Exn, Result, ok, raised, spooled, network_error, is_retryable, rate_limit_error, spooled_error,
}
use spooled_sdk_python.Json.{null}
use spooled_sdk_python.Effects.{M}
use spooled_sdk_python.Retry.{
  Floats, RetryConfig, Env, calculate_delay, backoff, with_retry, retry_loop, should_retry, wait,
  notify, min_float,
}
use spooled_sdk_python.Retry
use spooled_sdk_python.Retry.Delay
use spooled_sdk_python.Retry.Delay.{IsValidConfig, IsUniform}
use spooled_sdk_python.Retry.Attempts

abbrev pub leb : ℕ → ℕ → Bool
leb = Prelude.leb

abbrev pub power : ℕ → ℕ → ℕ
power x zero = 4
power x (suc n) = power x n * x / 4

pub mul_mono : (a b c : ℕ) → a ≤ b → c * a / 4 ≤ c * b / 4
mul_mono a b c h = grind arith

pub mul_mono_left : (a b c : ℕ) → a ≤ b → a * c / 4 ≤ b * c / 4
mul_mono_left a b c h = grind arith

power_mono : (x y : ℕ) → 4 ≤ x → y ≤ y * x / 4
power_mono x y h = grind (arith, mul_mono 4 x y)

pub leb_refl : (x : ℕ) → leb x x ≡ true
leb_refl x = ground arith

pub leb_trans : (x y z : ℕ) → leb x y ≡ true → leb y z ≡ true → leb x z ≡ true
leb_trans x y z h k = ground arith

pub leb_total : (x y : ℕ) → (leb x y ≡ true) ⊎ (leb y x ≡ true)
leb_total x y = ground arith

pub leb_add : (a c : ℕ) → leb a (a + c) ≡ true
leb_add a c = ground arith

pub add_mono : (a b c d : ℕ) → leb a b ≡ true → leb c d ≡ true → leb (a + c) (b + d) ≡ true
add_mono a b c d h k = ground arith

pub pow_mono :
    (x n y z : ℕ)
    → leb 4 x ≡ true
    → some (power x n) ≡ some y
    → some (power x (suc n)) ≡ some z
    → leb y z ≡ true
pow_mono x n y z h e k = ground (arith, power_mono x (power x n))

abbrev pub fixed : Floats
fixed = record {
  F = ℕ;
  leb = leb;
  zero_float = 0;
  one = 4;
  quarter = 1;
  of_ℕ = λ n. n * 4;
  add = ◌+◌;
  mul = λ a b. a * b / 4;
  pow = λ x n. some (power x n);
  leb_refl = leb_refl;
  leb_trans = leb_trans;
  leb_total = leb_total;
  add_mono = add_mono;
  add_pos = λ a c h. leb_add a c;
  mul_mono = λ a b c p h. Prelude.le→leb _ _ (mul_mono a b c (Prelude.leb→le a b h));
  mul_mono_left = λ a b c p h. Prelude.le→leb _ _ (mul_mono_left a b c (Prelude.leb→le a b h));
  mul_pos = λ a b h k. Prelude.le→leb _ _ (omega arith);
  quarter_pos = refl;
  of_ℕ_pos = λ n. Prelude.le→leb _ _ (omega arith);
  pow_mono = pow_mono;
  pow_pos = λ x n y h e. Prelude.le→leb _ _ (omega arith);
}

-- Three retries after 1, 2 and 4 seconds, and up to 30.
abbrev pub config : RetryConfig fixed
config = record { max_retries = 3; base_delay = 4; max_delay = 120; factor = 8; jitter = false }

config-IsValid : IsValidConfig fixed config
config-IsValid = record { base_pos = refl; max_pos = refl; factor_above = refl }

record World : Type 0 where
  calls : ℕ
  slept : ℕ

abbrev start : World
start = record { calls = 0; slept = 0 }

abbrev env : Env fixed World
env = record { uniform = λ r w. (0, w); sleep = λ d w. record w { slept = w.slept + d } }

env-IsUniform : IsUniform fixed env
env-IsUniform r s h = (refl, h)

abbrev failure : Exn
failure = spooled (network_error (codes "reset"))

abbrev down : M World ℕ
down w = (raised failure, record w { calls = suc w.calls })

calculate_delay_obeys_example : calculate_delay fixed env 1 config (some 60) start ≡ (ok 120, start)
calculate_delay_obeys_example =
    Delay.calculate_delay_obeys fixed env config 1 60 start (omega arith)

abbrev limited : Exn
limited = spooled (
    rate_limit_error
      (record { retry_after = 2; limit = none; remaining = none; reset = none; scope = none })
      (record { message = null; code = null; details = null; request_id = none }))

-- A rate limit, and then failures, of a request that is not idempotent.
abbrev shaky : M World ℕ
shaky w =
    (raised (if Prelude.ltb w.calls 1 then limited else failure), record w { calls = suc w.calls })

with_retry_final_example :
    Attempts.Ends fixed env shaky config none false 1 start
      (with_retry fixed env shaky config none false start)
with_retry_final_example = Attempts.with_retry_final fixed env shaky config none false start

-- It is sent twice, and not a third time.
shaky_calls :
    with_retry fixed env shaky config none false start
    ≡ (raised failure, record { calls = 2; slept = 8 })
unfolding with_retry retry_loop should_retry wait calculate_delay rate_limit_error is_retryable
    network_error spooled_error
shaky_calls = refl

with_retry_cost_example :
    (with_retry fixed env down config none true start).1.calls ≤ 0 + 4 * 1 + 3 * 0
with_retry_cost_example =
    Attempts.with_retry_cost fixed env down config none true (λ w. w.calls) 1 0 (λ w. omega arith)
      (λ d w. omega arith) (λ d w. omega arith) (λ n e d w. omega arith) start

waits : (n : ℕ) (w : World) → (wait fixed env down config none true n failure w).0 ≡ ok tt
unfolding wait calculate_delay backoff network_error
waits n w = refl

waits_free :
    (n : ℕ) (w : World) → (wait fixed env down config none true n failure w).1.calls ≡ w.calls
unfolding wait calculate_delay backoff network_error
waits_free n w = refl

with_retry_exhausts_example :
    ((with_retry fixed env down config none true start).0 ≡ raised failure)
    × ((with_retry fixed env down config none true start).1.calls ≡ 0 + 4)
unfolding is_retryable network_error
with_retry_exhausts_example =
    Attempts.with_retry_exhausts fixed env down config none true (λ w. w.calls) failure (λ w. refl)
      (λ w. refl) waits waits_free refl start

-- The waits of that run add up to 7 seconds.
slept : (with_retry fixed env down config none true start).1.slept ≡ 28
unfolding with_retry Retry.retry_loop wait calculate_delay backoff is_retryable Retry.should_retry
    network_error
slept = refl

abbrev may : Exn → Bool
may (spooled e) = true
may Exn.overflow_error = true
may _ = false

may-failure : (e : Exn) → ◌≡◌ {A = Result ℕ} (raised failure) (raised e) → may e ≡ true
may-failure e h = ground arith

may-notify :
    (n : ℕ) (x e : Exn) (d : ℕ) (w : World)
    → (notify fixed env none n x d w).0 ≡ raised e
    → may e ≡ true
may-notify n x e d w h = cc
