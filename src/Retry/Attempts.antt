-- ===== src/Retry/Attempts.antt =====
-- src/spooled/utils/retry.py: how often `with_retry` calls the function, and what comes of it.
use spooled_sdk_python.Prelude.{
  ℕ, zero, suc, ◌+◌, ◌-◌, ◌*◌, ◌≤◌, Bool, true, false, not, ◌&&◌, ◌||◌, Option, none, some, ◌≡◌,
  inl, inr, arith, Option-cases, Bool-cases, ◌⊎◌,
}
use spooled_sdk_python.Errors.{Exn, Result, ok, raised, Result-cases, rate_limit_retry_after}
use spooled_sdk_python.Effects.{M}
use spooled_sdk_python.Retry.{
  Floats, RetryConfig, Env, is_rate_limit, exn_is_retryable, should_retry, calculate_delay,
  min_float, backoff, notify, wait, retry_loop, with_retry,
}

-- An outcome that is handed on at once: a result, an error that no retry can help, or, of a
-- request that must not be sent twice, any error but a rate limit.
abbrev pub is_final : {A : Type 0} → Bool → Result A → Bool
is_final idempotent (ok a) = true
is_final idempotent (raised e) =
    not (exn_is_retryable e) || (not idempotent && not (is_rate_limit e))

module _ (fl : Floats) {S : Type 0} (env : Env fl S) {A : Type 0} (fn : M S A) (c : RetryConfig fl)
    (on_retry : Option (ℕ → Exn → fl.F → M S (Unit {0}))) (idempotent : Bool) where
  should_retry_final :
      (e : Exn) (attempt : ℕ)
      → is_final {A = A} idempotent (raised e) ≡ true
      → should_retry fl e attempt c idempotent ≡ false
  unfolding should_retry
  should_retry_final e attempt h = ground arith

  -- A final outcome of the first call ends the loop: one call, no wait, and its result or exception
  -- as it is.
  pub with_retry_once :
      (s : S)
      → is_final idempotent (fn s).0 ≡ true
      → with_retry fl env fn c on_retry idempotent s ≡ fn s
  unfolding with_retry retry_loop
  with_retry_once s h = elim (Result-cases (fn s).0) [
    | inl (a, e) ↦ ground (arith, e)
    | inr (x, e) ↦ ground (arith, e, should_retry_final x 1)
  ]

  should_retry_last :
      (e : Exn) (attempt : ℕ)
      → should_retry fl e attempt c idempotent ≡ true
      → attempt ≤ c.max_retries
  unfolding should_retry
  should_retry_last e attempt h = ground arith

  not_final :
      (e : Exn) (attempt : ℕ)
      → should_retry fl e attempt c idempotent ≡ true
      → is_final {A = A} idempotent (raised e) ≡ false
  unfolding should_retry
  not_final e attempt h = ground arith

  -- `Replays n s u`: the attempt `n`, in state `s`, and those after it up to the call in state `u`
  -- each raise an error that is not final, and the wait that follows each ends without an exception.
  pub data Replays : ℕ → S → S → Type 0 where
    last_call : {n : ℕ} → {s : S} → Replays n s s
    again :
        {n : ℕ}
        → {s u : S} → (e : Exn) → (fn s).0 ≡ raised e
        → is_final {A = A} idempotent (raised e) ≡ false
        → (wait fl env fn c on_retry idempotent n e (fn s).1).0 ≡ ok tt
        → Replays (n + 1) (wait fl env fn c on_retry idempotent n e (fn s).1).1 u
        → Replays n s u

  -- The call in state `u` is not final either, and the wait after it raises an exception.
  abbrev pub Interrupts : S → Result A × S → Type 0
  Interrupts u r =
      (n : ℕ) × (e : Exn) × (x : Exn) × ((fn u).0 ≡ raised e)
      × (is_final {A = A} idempotent (raised e) ≡ false)
      × ((wait fl env fn c on_retry idempotent n e (fn u).1).0 ≡ raised x)
      × (r ≡ (raised x, (wait fl env fn c on_retry idempotent n e (fn u).1).1))

  abbrev pub Ends : ℕ → S → Result A × S → Type 0
  Ends n s r = (u : S) × Replays n s u × ((r ≡ fn u) ⊎ Interrupts u r)

  Ends-again :
      (n : ℕ) (e : Exn) (s : S) (r : Result A × S)
      → (fn s).0 ≡ raised e
      → is_final {A = A} idempotent (raised e) ≡ false
      → (wait fl env fn c on_retry idempotent n e (fn s).1).0 ≡ ok tt
      → Ends (n + 1) (wait fl env fn c on_retry idempotent n e (fn s).1).1 r
      → Ends n s r
  Ends-again n e s r f h w (u, p, d) = (u, again e f h w p, d)

  retry_loop_returns :
      (k attempt : ℕ) (last : Option Exn) (s : S) (a : A)
      → (fn s).0 ≡ ok a
      → retry_loop fl env fn c on_retry idempotent (suc k) attempt last s ≡ fn s
  unfolding retry_loop
  retry_loop_returns k attempt last s a e = ground (arith, e)

  retry_loop_raises :
      (k attempt : ℕ) (last : Option Exn) (s : S) (e : Exn)
      → (fn s).0 ≡ raised e
      → should_retry fl e attempt c idempotent ≡ false
      → retry_loop fl env fn c on_retry idempotent (suc k) attempt last s ≡ fn s
  unfolding retry_loop
  retry_loop_raises k attempt last s e f h = ground (arith, f, h)

  retry_loop_again :
      (k attempt : ℕ) (last : Option Exn) (s : S) (e : Exn) (u : Unit {0})
      → (fn s).0 ≡ raised e
      → should_retry fl e attempt c idempotent ≡ true
      → (wait fl env fn c on_retry idempotent attempt e (fn s).1).0 ≡ ok u
      → retry_loop fl env fn c on_retry idempotent (suc k) attempt last s
        ≡ retry_loop fl env fn c on_retry idempotent k
            (attempt + 1)
            (some e)
            (wait fl env fn c on_retry idempotent attempt e (fn s).1).1
  unfolding retry_loop
  retry_loop_again k attempt last s e u f h w = ground (arith, f, h, w)

  retry_loop_interrupted :
      (k attempt : ℕ) (last : Option Exn) (s : S) (e x : Exn)
      → (fn s).0 ≡ raised e
      → should_retry fl e attempt c idempotent ≡ true
      → (wait fl env fn c on_retry idempotent attempt e (fn s).1).0 ≡ raised x
      → retry_loop fl env fn c on_retry idempotent (suc k) attempt last s
        ≡ (raised x, (wait fl env fn c on_retry idempotent attempt e (fn s).1).1)
  unfolding retry_loop
  retry_loop_interrupted k attempt last s e x f h w = ground (arith, f, h, w)

  retry_loop_final :
      (k attempt : ℕ) (last : Option Exn) (s : S)
      → attempt + k ≡ c.max_retries + 1
      → Ends attempt s (retry_loop fl env fn c on_retry idempotent (suc k) attempt last s)
  retry_loop_final zero attempt last s h = elim (Result-cases (fn s).0) [
    | inl (a, q) ↦ (s, last_call, inl (retry_loop_returns zero attempt last s a q))
    | inr (e, q) ↦ elim (Bool-cases (should_retry fl e attempt c idempotent)) [
      | inr n ↦ (s, last_call, inl (retry_loop_raises zero attempt last s e q n))
      | inl y ↦ absurd (omega (arith, h, should_retry_last e attempt y))
    ]
  ]
  retry_loop_final (suc k) attempt last s h = elim (Result-cases (fn s).0) [
    | inl (a, q) ↦ (s, last_call, inl (retry_loop_returns (suc k) attempt last s a q))
    | inr (e, q) ↦ elim (Bool-cases (should_retry fl e attempt c idempotent)) [
      | inr n ↦ (s, last_call, inl (retry_loop_raises (suc k) attempt last s e q n))
      | inl y ↦
          let w = wait fl env fn c on_retry idempotent attempt e (fn s).1 in
          let later = retry_loop_final k (attempt + 1) (some e) w.1 (omega arith) in
          elim (Result-cases w.0) [
            | inl (u, p) ↦
                rw (retry_loop_again (suc k) attempt last s e u q y p)
                  (Ends-again attempt e s _ q (not_final e attempt y) p later)
            | inr (x, p) ↦
                let stops = retry_loop_interrupted (suc k) attempt last s e x q y p in
                (s, last_call, inr (attempt, e, x, q, not_final e attempt y, p, stops))
          ]
    ]
  ]

  -- Whatever `with_retry` returns or raises is the outcome of the call of the function in some state
  -- `u`, or the exception of the wait after that call; and every call before that one has raised an
  -- error that is not final. So a request that is not idempotent is, at any attempt, sent again only
  -- after a rate limit.
  pub with_retry_final : (s : S) → Ends 1 s (with_retry fl env fn c on_retry idempotent s)
  unfolding with_retry
  with_retry_final s = retry_loop_final c.max_retries 1 none s (omega arith)

  -- What a run may cost, in any measure of the state: `call` for a call of the function, `nap` for a
  -- wait.
  module _ (count : S → ℕ) (call nap : ℕ) (call_cost : (s : S) → count (fn s).1 ≤ count s + call)
      (sleep_cost : (d : fl.F) (s : S) → count (env.sleep d s) ≤ count s + nap)
      (draw_free : (d : fl.F) (s : S) → count (env.uniform d s).1 ≤ count s)
      (notify_free : (n : ℕ) (e : Exn) (d : fl.F) (s : S)
        → count (notify fl env on_retry n e d s).1 ≤ count s) where
    backoff_free : (attempt : ℕ) (s : S) → count (backoff fl env attempt c s).1 ≤ count s
    unfolding backoff
    backoff_free attempt s = elim (Option-cases (fl.pow c.factor (attempt - 1))) [
      | inl overflow ↦ ground (arith, overflow)
      | inr (y, e) ↦ ground (
        arith,
        e,
        draw_free (fl.mul (min_float fl (fl.mul c.base_delay y) c.max_delay) fl.quarter) s,
      )
    ]

    calculate_delay_free :
        (attempt : ℕ) (r : Option ℕ) (s : S)
        → count (calculate_delay fl env attempt c r s).1 ≤ count s
    unfolding calculate_delay
    calculate_delay_free attempt none s = backoff_free attempt s
    calculate_delay_free attempt (some n) s = ground (arith, backoff_free attempt s)

    wait_cost :
        (attempt : ℕ) (e : Exn) (s : S)
        → count (wait fl env fn c on_retry idempotent attempt e s).1 ≤ count s + nap
    unfolding wait
    wait_cost attempt e s =
        let r = rate_limit_retry_after e in
        let (x, t) = calculate_delay fl env attempt c r s in
        elim (Result-cases x) [
          | inr (f, q) ↦ ground (arith, q, calculate_delay_free attempt r s)
          | inl (d, q) ↦ ground (
            arith,
            q,
            calculate_delay_free attempt r s,
            notify_free attempt e d t,
            sleep_cost d (notify fl env on_retry attempt e d t).1,
          )
        ]

    retry_loop_cost :
        (k attempt : ℕ) (last : Option Exn) (s : S)
        → attempt + k ≡ c.max_retries + 1
        → count (retry_loop fl env fn c on_retry idempotent (suc k) attempt last s).1
          ≤ count s + suc k * call + k * nap
    unfolding retry_loop
    retry_loop_cost zero attempt last s h = elim (Result-cases (fn s).0) [
      | inl (a, q) ↦ ground (arith, q, call_cost s)
      | inr (e, q) ↦ ground (arith, q, call_cost s, should_retry_last e attempt)
    ]
    retry_loop_cost (suc k) attempt last s h = elim (Result-cases (fn s).0) [
      | inl (a, q) ↦ ground (arith, q, call_cost s)
      | inr (e, q) ↦
          let u = wait fl env fn c on_retry idempotent attempt e (fn s).1 in
          ground (
            arith,
            q,
            call_cost s,
            wait_cost attempt e (fn s).1,
            retry_loop_cost k (attempt + 1) (some e) u.1 (omega arith),
          )
    ]

    -- In a measure that a call of the function raises by at most `call`, a sleep by at most `nap`, and
    -- the jitter and the callback not at all, `with_retry` costs at most `max_retries + 1` calls and
    -- `max_retries` sleeps.
    pub with_retry_cost :
        (s : S)
        → count (with_retry fl env fn c on_retry idempotent s).1
          ≤ count s + suc c.max_retries * call + c.max_retries * nap
    unfolding with_retry
    with_retry_cost s = retry_loop_cost c.max_retries 1 none s (omega arith)

  -- The run of a function that fails for good, in a measure that a call raises by 1 and nothing else
  -- changes.
  module _ (count : S → ℕ) (error : Exn) (fails : (s : S) → (fn s).0 ≡ raised error)
      (counts : (s : S) → count (fn s).1 ≡ suc (count s))
      (waits : (n : ℕ) (s : S) → (wait fl env fn c on_retry idempotent n error s).0 ≡ ok tt)
      (waits_free : (n : ℕ) (s : S)
        → count (wait fl env fn c on_retry idempotent n error s).1 ≡ count s)
      (retryable : is_final {A = A} idempotent (raised error) ≡ false) where
    retry_loop_exhausts :
        (k attempt : ℕ) (last : Option Exn) (s : S)
        → attempt + k ≡ c.max_retries + 1
        → let (r, t) = retry_loop fl env fn c on_retry idempotent (suc k) attempt last s in
          (r ≡ raised error) × (count t ≡ count s + suc k)
    unfolding retry_loop should_retry
    retry_loop_exhausts zero attempt last s h = ground (arith, fails s, counts s)
    retry_loop_exhausts (suc k) attempt last s h =
        let u = wait fl env fn c on_retry idempotent attempt error (fn s).1 in
        ground (
          arith,
          fails s,
          counts s,
          waits attempt (fn s).1,
          waits_free attempt (fn s).1,
          retryable,
          retry_loop_exhausts k (attempt + 1) (some error) u.1 (omega arith),
        )

    -- A function that in every state fails with the same error, which is not final, is called exactly
    -- `max_retries + 1` times, and then that error is raised, if no wait raises one of its own.
    pub with_retry_exhausts :
        (s : S)
        → let (r, t) = with_retry fl env fn c on_retry idempotent s in
          (r ≡ raised error) × (count t ≡ count s + suc c.max_retries)
    unfolding with_retry
    with_retry_exhausts s = retry_loop_exhausts c.max_retries 1 none s (omega arith)
