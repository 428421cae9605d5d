-- ===== src/Retry.antt =====
-- src/spooled/utils/retry.py: retries with exponential backoff. Seconds are floats, which antt does
-- not have: `Floats` is the type of a float that is no NaN, with the operations that the code uses
-- and those facts of IEEE arithmetic and of `random.uniform` that the theorems need.
pub mod Delay
pub mod Attempts
pub mod Raises
pub mod Examples
use spooled_sdk_python.Prelude.{
  ℕ, zero, suc, ◌+◌, ◌-◌, ltb, Bool, true, false, not, ◌≡◌, ◌⊎◌, Option, none, some, if◌then◌else◌,
}
use spooled_sdk_python.Errors.{
  Exn, spooled, overflow_error, runtime_error, SpooledError, Kind, rate_limit, quota_exceeded,
  is_retryable, rate_limit_retry_after,
}
use spooled_sdk_python.Effects.{M, pure, raise, modify, catch, ◌>>=◌, ◌>>◌}

pub record Floats : Type 1 where
  pub F : Type 0
  pub leb : F → F → Bool
  pub zero_float : F
  pub one : F
  pub quarter : F
  -- `float(n)`.
  pub of_ℕ : ℕ → F
  pub add : F → F → F
  pub mul : F → F → F
  -- `x ** n` for n ≥ 0; Python raises an OverflowError where the power is too large: none.
  pub pow : F → ℕ → Option F
  pub leb_refl : (x : F) → leb x x ≡ true
  pub leb_trans : (x y z : F) → leb x y ≡ true → leb y z ≡ true → leb x z ≡ true
  pub leb_total : (x y : F) → (leb x y ≡ true) ⊎ (leb y x ≡ true)
  pub add_mono : (a b c d : F) → leb a b ≡ true → leb c d ≡ true → leb (add a c) (add b d) ≡ true
  pub add_pos : (a c : F) → leb zero_float c ≡ true → leb a (add a c) ≡ true
  pub mul_mono :
      (a b c : F) → leb zero_float c ≡ true → leb a b ≡ true → leb (mul c a) (mul c b) ≡ true
  pub mul_mono_left :
      (a b c : F) → leb zero_float c ≡ true → leb a b ≡ true → leb (mul a c) (mul b c) ≡ true
  pub mul_pos :
      (a b : F)
      → leb zero_float a ≡ true
      → leb zero_float b ≡ true
      → leb zero_float (mul a b) ≡ true
  pub quarter_pos : leb zero_float quarter ≡ true
  pub of_ℕ_pos : (n : ℕ) → leb zero_float (of_ℕ n) ≡ true
  -- The powers of a base that is at least 1 grow, and those of a positive one are positive.
  pub pow_mono :
      (x : F) (n : ℕ) (y z : F)
      → leb one x ≡ true
      → pow x n ≡ some y
      → pow x (suc n) ≡ some z
      → leb y z ≡ true
  pub pow_pos :
      (x : F) (n : ℕ) (y : F) → leb one x ≡ true → pow x n ≡ some y → leb zero_float y ≡ true

-- `RetryConfig` of src/spooled/config.py.
pub record RetryConfig (fl : Floats) : Type 0 where
  pub max_retries : ℕ
  pub base_delay : fl.F
  pub max_delay : fl.F
  pub factor : fl.F
  pub jitter : Bool

-- `isinstance(error, RateLimitError)`.
abbrev pub is_rate_limit_kind : Kind → Bool
is_rate_limit_kind (rate_limit r) = true
is_rate_limit_kind (quota_exceeded q) = true
is_rate_limit_kind _ = false

abbrev pub is_rate_limit : Exn → Bool
is_rate_limit (spooled e) = is_rate_limit_kind e.kind
is_rate_limit _ = false

-- `error.is_retryable()` for the SDK's own errors; any other exception is retried.
abbrev pub exn_is_retryable : Exn → Bool
exn_is_retryable (spooled e) = is_retryable e
exn_is_retryable _ = true

module _ (fl : Floats) where
  open fl use {F, leb, zero_float, quarter, of_ℕ, add, mul, pow}

  unfoldable pub should_retry : Exn → ℕ → RetryConfig fl → Bool → Bool
  should_retry e attempt c idempotent =
      if ltb c.max_retries attempt
      then false
      else if is_rate_limit e
      then exn_is_retryable e
      else if not idempotent
      then false
      else exn_is_retryable e

  -- Python's `min(x, y)`.
  abbrev pub min_float : F → F → F
  min_float x y = if leb x y then x else y

  -- The environment: a draw of `random.uniform(0, r)`, and `time.sleep`.
  pub record Env (S : Type 0) : Type 0 where
    pub uniform : F → S → F × S
    pub sleep : F → S → S

  module _ {S : Type 0} (env : Env S) where
    abbrev pub draw : F → M S F
    draw r s = let (x, s') = env.uniform r s in pure x s'

    abbrev pub power : F → ℕ → M S F
    power x n = elim (pow x n) [ none ↦ raise overflow_error | some y ↦ pure y ]

    unfoldable pub backoff : ℕ → RetryConfig fl → M S F
    backoff attempt c = do
      factor ← power c.factor (attempt - 1)
      let delay = min_float (mul c.base_delay factor) c.max_delay
      let jittered : M S F = (do extra ← draw (mul delay quarter); pure (add delay extra))
      if c.jitter then jittered else pure delay

    unfoldable pub calculate_delay : ℕ → RetryConfig fl → Option ℕ → M S F
    calculate_delay attempt c none = backoff attempt c
    calculate_delay attempt c (some retry_after) =
        if ltb 0 retry_after
        then pure (min_float (of_ℕ retry_after) c.max_delay)
        else backoff attempt c

    -- `if on_retry: on_retry(attempt, e, delay)`.
    abbrev pub notify : Option (ℕ → Exn → F → M S (Unit {0})) → ℕ → Exn → F → M S (Unit {0})
    notify none attempt e delay = pure tt
    notify (some f) attempt e delay = f attempt e delay

    module _ {A : Type 0} (fn : M S A) (c : RetryConfig fl)
        (on_retry : Option (ℕ → Exn → F → M S (Unit {0}))) (idempotent : Bool) where
      -- What stands below the loop, which "should not reach here".
      abbrev pub exhausted : Option Exn → M S A
      exhausted none = raise runtime_error
      exhausted (some e) = raise e

      -- The rest of the `except` block, once the error is to be retried.
      unfoldable pub wait : ℕ → Exn → M S (Unit {0})
      wait attempt e = do
        delay ← calculate_delay attempt c (rate_limit_retry_after e)
        notify on_retry attempt e delay
        modify (env.sleep delay)

      -- The rounds of the loop that are left, the attempt, and `last_error`.
      unfoldable pub retry_loop : ℕ → ℕ → Option Exn → M S A
      retry_loop zero attempt last = exhausted last
      retry_loop (suc rounds) attempt last = catch fn λ e.
          let again : M S A = wait attempt e >> retry_loop rounds (attempt + 1) (some e) in
          if should_retry e attempt c idempotent then again else raise e

      unfoldable pub with_retry : M S A
      with_retry = retry_loop (suc c.max_retries) 1 none
