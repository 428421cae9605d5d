-- ===== src/Retry/Raises.antt =====
-- src/spooled/utils/retry.py: what `with_retry` may raise.
use spooled_sdk_python.Prelude.{
  ℕ, zero, suc, ◌+◌, ◌-◌, Bool, true, Option, none, some, ◌≡◌, inl, inr, arith, Option-cases,
}
use spooled_sdk_python.Errors.{Exn, raised, Result-cases, overflow_error, rate_limit_retry_after}
use spooled_sdk_python.Effects.{M}
use spooled_sdk_python.Retry.{
  Floats, RetryConfig, Env, calculate_delay, backoff, notify, wait, retry_loop, with_retry,
}

module _ (fl : Floats) {S : Type 0} (env : Env fl S) {A : Type 0} (fn : M S A) (c : RetryConfig fl)
    (on_retry : Option (ℕ → Exn → fl.F → M S (Unit {0}))) (idempotent : Bool) where
  -- What a run may raise: `RuntimeError`, which "should not be reached", only if the function or the
  -- callback raise it.
  module _ (may : Exn → Bool) (overflow : may overflow_error ≡ true)
      (fn_raises : (s : S) (e : Exn) → (fn s).0 ≡ raised e → may e ≡ true)
      (notify_raises : (n : ℕ) (x e : Exn) (d : fl.F) (s : S)
        → (notify fl env on_retry n x d s).0 ≡ raised e
        → may e ≡ true) where
    backoff_raises : (n : ℕ) (s : S) (e : Exn) → (backoff fl env n c s).0 ≡ raised e → may e ≡ true
    unfolding backoff
    backoff_raises n s e h = elim (Option-cases (fl.pow c.factor (n - 1))) [
      | inl o ↦ ground (arith, o)
      | inr (y, q) ↦ ground (arith, q)
    ]

    calculate_delay_raises :
        (n : ℕ) (r : Option ℕ) (s : S) (e : Exn)
        → (calculate_delay fl env n c r s).0 ≡ raised e
        → may e ≡ true
    unfolding calculate_delay
    calculate_delay_raises n none s e h = backoff_raises n s e h
    calculate_delay_raises n (some r) s e h = ground (arith, backoff_raises n s e)

    wait_raises :
        (n : ℕ) (x : Exn) (s : S) (e : Exn)
        → (wait fl env fn c on_retry idempotent n x s).0 ≡ raised e
        → may e ≡ true
    unfolding wait
    wait_raises n x s e h =
        let r = rate_limit_retry_after x in
        let (y, t) = calculate_delay fl env n c r s in
        elim (Result-cases y) [
          | inr (f, q) ↦ ground (arith, q, calculate_delay_raises n r s f)
          | inl (d, q) ↦ elim (Result-cases (notify fl env on_retry n x d t).0) [
            | inl (u, q') ↦ ground (arith, q, q')
            | inr (f, q') ↦ ground (arith, q, q', notify_raises n x f d t)
          ]
        ]

    retry_loop_raises :
        (k n : ℕ) (x : Exn) (s : S) (e : Exn)
        → may x ≡ true
        → (retry_loop fl env fn c on_retry idempotent k n (some x) s).0 ≡ raised e
        → may e ≡ true
    unfolding retry_loop
    retry_loop_raises zero n x s e p h = ground arith
    retry_loop_raises (suc k) n x s e p h = elim (Result-cases (fn s).0) [
      | inl (a, q) ↦ ground (arith, q)
      | inr (y, q) ↦
          let u = wait fl env fn c on_retry idempotent n y (fn s).1 in
          elim (Result-cases u.0) [
            | inr (f, q') ↦ ground (arith, q, q', fn_raises s y, wait_raises n y (fn s).1 f)
            | inl (z, q') ↦
                ground (arith, q, q', fn_raises s y, retry_loop_raises k (n + 1) y u.1 e)
          ]
    ]

    -- `with_retry` raises nothing but what the function or the callback may raise, and the
    -- OverflowError of the power; so not the RuntimeError below the loop, unless these do.
    pub with_retry_raises :
        (s : S) (e : Exn)
        → (with_retry fl env fn c on_retry idempotent s).0 ≡ raised e
        → may e ≡ true
    unfolding with_retry retry_loop
    with_retry_raises s e h = elim (Result-cases (fn s).0) [
      | inl (a, q) ↦ ground (arith, q)
      | inr (y, q) ↦
          let u = wait fl env fn c on_retry idempotent 1 y (fn s).1 in
          elim (Result-cases u.0) [
            | inr (f, q') ↦ ground (arith, q, q', fn_raises s y, wait_raises 1 y (fn s).1 f)
            | inl (z, q') ↦
                ground (arith, q, q', fn_raises s y, retry_loop_raises c.max_retries 2 y u.1 e)
          ]
    ]
