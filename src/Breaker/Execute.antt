-- ===== src/Breaker/Execute.antt =====
-- src/spooled/utils/circuit_breaker.py: `execute`, over any state that holds the breaker.
use mathlib.Core.Path.{subst}
use spooled_sdk_python.Prelude.{
  ℕ, ◌+◌, ◌<◌, some, true, false, Str, ◌≡◌, ◌∙◌, ap, sym, arith, Bool-cases, inl, inr,
}
use spooled_sdk_python.Errors.{Exn, Result, ok, raised}
use spooled_sdk_python.Effects.{M, Part}
use spooled_sdk_python.Breaker.{
  CircuitBreaker, closed, open_circuit, is_ignored, is_allowed, record_success, record_failure,
  execute, open_error,
}
use spooled_sdk_python.Breaker.Invariant.{
  IsValidConfig, IsValid, Call, step, asks, succeeds, fails, step-IsValid,
}

-- A breaker with a valid configuration that satisfies the invariant.
abbrev pub IsSound : CircuitBreaker → Type 0
IsSound b = IsValidConfig b.config × IsValid b

step-IsSound : (b : CircuitBreaker) (c : Call) → IsSound b → IsSound (step b c)
step-IsSound b c v = let (w, e) = step-IsValid b c v.0 v.1 in (rw e v.0, w)

-- The breaker after an outcome has been recorded at a time.
abbrev pub recorded {ℓ} : {A : Type ℓ} → Result A → ℕ → CircuitBreaker → CircuitBreaker
recorded (ok a) now b = record_success b
recorded (raised e) now b = record_failure now e b

recorded-IsSound {ℓ} :
    {A : Type ℓ} (r : Result A) (now : ℕ) (b : CircuitBreaker)
    → IsSound b
    → IsSound (recorded r now b)
unfolding step
recorded-IsSound (ok a) now b v = step-IsSound b succeeds v
recorded-IsSound (raised e) now b v = step-IsSound b (fails now e) v

module _ {S : Type 0} (cb : Part S CircuitBreaker) (now : S → ℕ) (show : ℕ → Str) where
  -- The state in which `fn` runs.
  abbrev pub admitted : S → S
  admitted s = cb.set (is_allowed (now s) (cb.get s)).0 s

  -- A refused call does not run `fn`: it raises the breaker's own error, and changes no more than
  -- the question whether it is allowed changes.
  pub execute_refused :
      {A : Type 0} (fn : M S A) (s : S)
      → (is_allowed (now s) (cb.get s)).1 ≡ false
      → execute cb now show fn s ≡ (raised (open_error cb now show (admitted s)), admitted s)
  unfolding execute
  execute_refused fn s h = ground arith

  -- A call that is allowed runs `fn` once, and returns or raises what `fn` does; the breaker then
  -- records the outcome in the state that `fn` left.
  pub execute_allowed :
      {A : Type 0} (fn : M S A) (s : S)
      → (is_allowed (now s) (cb.get s)).1 ≡ true
      → let (r, s') = fn (admitted s) in
        execute cb now show fn s ≡ (r, cb.set (recorded r (now s') (cb.get s')) s')
  unfolding execute
  execute_allowed fn s h = ground arith

  -- With the breaker switched off, before and after `fn`, `execute` is `fn`.
  pub execute_disabled :
      {A : Type 0} (fn : M S A) (s : S)
      → (cb.get s).config.enabled ≡ false
      → (cb.get (fn s).1).config.enabled ≡ false
      → execute cb now show fn s ≡ fn s
  unfolding execute is_allowed record_success record_failure
  execute_disabled fn s h k = ground (arith, cb.set-get s, cb.set-get (fn s).1)

  -- `execute` keeps a breaker with a valid configuration well formed, if `fn` does so in every state.
  pub execute-IsValid :
      {A : Type 0} (fn : M S A) (s : S)
      → ((t : S) → IsSound (cb.get t) → IsSound (cb.get (fn t).1))
      → IsSound (cb.get s)
      → IsSound (cb.get (execute cb now show fn s).1)
  unfolding step
  execute-IsValid fn s keep v = elim (Bool-cases (is_allowed (now s) (cb.get s)).1) [
    | inr refused ↦ rw (execute_refused fn s refused, cb.get-set _ s) asked
    | inl allowed ↦ rw (execute_allowed fn s allowed, cb.get-set _ (fn (admitted s)).1) done
  ]
    where
      asked : IsSound (is_allowed (now s) (cb.get s)).0
      asked = step-IsSound (cb.get s) (asks (now s)) v

      done :
          IsSound
            (recorded (fn (admitted s)).0 (now (fn (admitted s)).1) (cb.get (fn (admitted s)).1))
      done =
          recorded-IsSound _ _ _
            (keep (admitted s) (rw (cb.get-set (is_allowed (now s) (cb.get s)).0 s) asked))

  admitted_open :
      (b : CircuitBreaker) (at last : ℕ)
      → b.config.enabled ≡ true
      → b.state ≡ open_circuit
      → b.last_failure_time ≡ some last
      → at < last + b.config.timeout
      → is_allowed at b ≡ (b, false)
  unfolding is_allowed
  admitted_open b at last on o l lt = ground arith

  admitted_closed : (b : CircuitBreaker) (at : ℕ) → b.state ≡ closed → is_allowed at b ≡ (b, true)
  unfolding is_allowed
  admitted_closed b at h = ground arith

  trips :
      (b : CircuitBreaker) (at : ℕ) (e : Exn)
      → b.config.enabled ≡ true
      → b.state ≡ closed
      → b.failure_count + 1 ≡ b.config.failure_threshold
      → is_ignored e ≡ false
      → let d = record_failure at e b in
        (d.config ≡ b.config) × (d.state ≡ open_circuit) × (d.last_failure_time ≡ some at)
  unfolding record_failure
  trips b at e on h n i = ground arith

  -- Where `fn`, in the state in which `execute` runs it, raises a failure that counts, leaves the
  -- breaker alone, and is the one that fills the threshold of an enabled, closed breaker: `execute`
  -- raises that failure, and from then on, until the timeout has passed since `fn` ended, `execute`
  -- with any other function on this breaker raises the breaker's own error and changes nothing: it
  -- does not run that function.
  pub execute_trips :
      {A : Type 0} {B : Type 0} (fn : M S A) (g : M S B) (s t u : S) (e : Exn)
      → (cb.get s).config.enabled ≡ true
      → (cb.get s).state ≡ closed
      → (cb.get s).failure_count + 1 ≡ (cb.get s).config.failure_threshold
      → fn s ≡ (raised e, u)
      → cb.get u ≡ cb.get s
      → is_ignored e ≡ false
      → cb.get t ≡ cb.get (execute cb now show fn s).1
      → now t < now u + (cb.get s).config.timeout
      → ((execute cb now show fn s).0 ≡ raised e)
        × (execute cb now show g t ≡ (raised (open_error cb now show t), t))
  execute_trips fn g s t u e on h n f k i same lt =
      let ask = admitted_closed (cb.get s) (now s) h in
      let in_s : admitted s ≡ s = ap (λ x. cb.set x.0 s) ask ∙ cb.set-get s in
      let out = ap fn in_s ∙ f in
      let done = execute_allowed fn s (ap (λ x. x.1) ask) in
      let failed : execute cb now show fn s
          ≡ (raised e, cb.set (record_failure (now u) e (cb.get u)) u) =
        done ∙ ap (λ x. (x.0, cb.set (recorded x.0 (now x.1) (cb.get x.1)) x.1)) out in
      let now_is : cb.get t ≡ record_failure (now u) e (cb.get s) =
        same ∙ ap (λ x. cb.get x.1) failed ∙ cb.get-set _ u ∙ ap (record_failure (now u) e) k in
      let (c, o, l) = trips (cb.get s) (now u) e on h n i in
      let ask' =
        admitted_open (cb.get t) (now t) (now u)
          (ap (λ x. x.config.enabled) now_is ∙ ap (λ x. x.enabled) c ∙ on)
          (ap (λ x. x.state) now_is ∙ o) (ap (λ x. x.last_failure_time) now_is ∙ l)
          (subst (λ x. now t < now u + x)
            (sym (ap (λ x. x.config.timeout) now_is ∙ ap (λ x. x.timeout) c)) lt) in
      let in_t : admitted t ≡ t = ap (λ x. cb.set x.0 t) ask' ∙ cb.set-get t in
      (
        ap (λ x. x.0) failed,
        execute_refused g t (ap (λ x. x.1) ask')
            ∙ ap (λ x. (raised (open_error cb now show x), x)) in_t,
      )
