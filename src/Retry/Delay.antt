-- ===== src/Retry/Delay.antt =====
-- src/spooled/utils/retry.py: how long `calculate_delay` waits.
use spooled_sdk_python.Prelude.{
  ℕ, suc, ◌+◌, ◌-◌, ltb, ◌<◌, true, false, Option, none, some, ◌≡◌, inl, inr, refl, arith,
  if◌then◌else◌, Bool-cases, Option-cases,
}
use spooled_sdk_python.Errors.{Result, ok, raised, overflow_error}
use spooled_sdk_python.Retry.{Floats, RetryConfig, Env, min_float, backoff, calculate_delay}

module _ (fl : Floats) where
  open fl use {F, leb, zero_float, one, quarter, of_ℕ, add, mul, pow}

  -- The constraints of the fields of `RetryConfig`.
  pub record IsValidConfig (c : RetryConfig fl) : Type 0 where
    pub base_pos : leb zero_float c.base_delay ≡ true
    pub max_pos : leb zero_float c.max_delay ≡ true
    pub factor_above : leb one c.factor ≡ true

  -- `random.uniform(0, r)` lies between its bounds.
  abbrev pub IsUniform : {S : Type 0} → Env fl S → Type 0
  IsUniform {S} env =
      (r : F) (s : S)
      → leb zero_float r ≡ true
      → (leb zero_float (env.uniform r s).0 ≡ true) × (leb (env.uniform r s).0 r ≡ true)

  min_float-le : (x y : F) → (leb (min_float fl x y) x ≡ true) × (leb (min_float fl x y) y ≡ true)
  min_float-le x y = ground (arith, fl.leb_refl x, fl.leb_refl y, fl.leb_total x y)

  min_float_pos :
      (x y : F)
      → leb zero_float x ≡ true
      → leb zero_float y ≡ true
      → leb zero_float (min_float fl x y) ≡ true
  min_float_pos x y h k = ground arith

  min_float_mono : (x y m : F) → leb x y ≡ true → leb (min_float fl x m) (min_float fl y m) ≡ true
  min_float_mono x y m h = ground (
    arith,
    fl.leb_refl m,
    fl.leb_trans x y m,
    fl.leb_total y m,
    fl.leb_total x m,
    fl.leb_trans m y m,
  )

  module _ {S : Type 0} (env : Env fl S) (c : RetryConfig fl) where
    -- The longest wait that is possible: the cap, and a quarter of it where there is jitter.
    abbrev pub longest : F
    longest = if c.jitter then add c.max_delay (mul c.max_delay quarter) else c.max_delay

    abbrev InRange : Result F → Type 0
    InRange (ok d) = (leb zero_float d ≡ true) × (leb d longest ≡ true)
    InRange (raised e) = e ≡ overflow_error

    cap-le-longest : IsValidConfig c → leb c.max_delay longest ≡ true
    cap-le-longest v = ground (
      arith,
      fl.leb_refl c.max_delay,
      fl.add_pos c.max_delay (mul c.max_delay quarter),
      fl.mul_pos c.max_delay quarter,
      fl.quarter_pos,
    )

    jittered_range :
        (d : F) (s : S)
        → IsValidConfig c
        → IsUniform env
        → c.jitter ≡ true
        → leb zero_float d ≡ true
        → leb d c.max_delay ≡ true
        → let x = (env.uniform (mul d quarter) s).0 in
          (leb zero_float (add d x) ≡ true) × (leb (add d x) longest ≡ true)
    jittered_range d s v u j pos cap =
        let (low, high) = u (mul d quarter) s (fl.mul_pos d quarter pos fl.quarter_pos) in
        let x = (env.uniform (mul d quarter) s).0 in
        let share = fl.mul_mono_left d c.max_delay quarter fl.quarter_pos cap in
        (
          fl.leb_trans zero_float d (add d x) pos (fl.add_pos d x low),
          rw j (
              fl.add_mono d c.max_delay x (mul c.max_delay quarter) cap
                (fl.leb_trans x (mul d quarter) (mul c.max_delay quarter) high share)),
        )

    -- The delay before jitter, for a power of the factor.
    abbrev capped : F → F
    capped y = min_float fl (mul c.base_delay y) c.max_delay

    backoff_overflow :
        (attempt : ℕ) (s : S)
        → pow c.factor (attempt - 1) ≡ none
        → backoff fl env attempt c s ≡ (raised overflow_error, s)
    unfolding backoff
    backoff_overflow attempt s e = ground arith

    backoff_plain :
        (attempt : ℕ) (s : S) (y : F)
        → pow c.factor (attempt - 1) ≡ some y
        → c.jitter ≡ false
        → backoff fl env attempt c s ≡ (ok (capped y), s)
    unfolding backoff
    backoff_plain attempt s y e j = ground arith

    backoff_jitter :
        (attempt : ℕ) (s : S) (y : F)
        → pow c.factor (attempt - 1) ≡ some y
        → c.jitter ≡ true
        → let (x, s') = env.uniform (mul (capped y) quarter) s in
          backoff fl env attempt c s ≡ (ok (add (capped y) x), s')
    unfolding backoff
    backoff_jitter attempt s y e j = ground arith

    backoff_range :
        (attempt : ℕ) (s : S)
        → IsValidConfig c
        → IsUniform env
        → InRange (backoff fl env attempt c s).0
    backoff_range attempt s v u = elim (Option-cases (pow c.factor (attempt - 1))) [
      | inl overflow ↦ rw (backoff_overflow attempt s overflow) refl
      | inr (y, e) ↦
          let grown =
            fl.mul_pos c.base_delay y v.base_pos (fl.pow_pos c.factor _ y v.factor_above e) in
          let low = min_float_pos (mul c.base_delay y) c.max_delay grown v.max_pos in
          let cap = (min_float-le (mul c.base_delay y) c.max_delay).1 in
          elim (Bool-cases c.jitter) [
            | inl j ↦
                rw (backoff_jitter attempt s y e j) (jittered_range (capped y) s v u j low cap)
            | inr j ↦ rw (backoff_plain attempt s y e j) (low, rw j cap)
          ]
    ]

    -- Every wait is at least 0 and at most `max_delay`, plus a quarter of that where `jitter` is on;
    -- the only exception that computing it raises is the OverflowError of the power.
    pub calculate_delay_range :
        (attempt : ℕ) (retry_after : Option ℕ) (s : S)
        → IsValidConfig c
        → IsUniform env
        → InRange (calculate_delay fl env attempt c retry_after s).0
    unfolding calculate_delay
    calculate_delay_range attempt none s v u = backoff_range attempt s v u
    calculate_delay_range attempt (some n) s v u = elim (Bool-cases (ltb 0 n)) [
      | inl pos ↦ rw pos (
        min_float_pos (of_ℕ n) c.max_delay (fl.of_ℕ_pos n) v.max_pos,
        fl.leb_trans _ _ _ (min_float-le (of_ℕ n) c.max_delay).1 (cap-le-longest v),
      )
      | inr missing ↦ rw missing (backoff_range attempt s v u)
    ]

    backoff_inverse :
        (attempt : ℕ) (s : S) (d : F)
        → c.jitter ≡ false
        → backoff fl env (attempt + 1) c s ≡ (ok d, s)
        → (y : F) × (pow c.factor attempt ≡ some y) × (d ≡ capped y)
    unfolding backoff
    backoff_inverse attempt s d j h =
        let e : attempt + 1 - 1 ≡ attempt = omega arith in
        elim (Option-cases (pow c.factor attempt)) [
          | inl overflow ↦ ground (arith, e, overflow, h)
          | inr (y, found) ↦ (y, found, ground (arith, e, found, h))
        ]

    -- With jitter off and no `Retry-After`, the next attempt never waits for less.
    pub calculate_delay_grows :
        (attempt : ℕ) (s : S) (d d' : F)
        → IsValidConfig c
        → c.jitter ≡ false
        → calculate_delay fl env (attempt + 1) c none s ≡ (ok d, s)
        → calculate_delay fl env (suc attempt + 1) c none s ≡ (ok d', s)
        → leb d d' ≡ true
    unfolding calculate_delay
    calculate_delay_grows attempt s d d' v j h h' =
        let (y, e, q) = backoff_inverse attempt s d j h in
        let (z, e', q') = backoff_inverse (suc attempt) s d' j h' in
        rw (q, q')
          (min_float_mono (mul c.base_delay y) (mul c.base_delay z) c.max_delay (
            fl.mul_mono y z c.base_delay v.base_pos
              (fl.pow_mono c.factor attempt y z v.factor_above e e')))

    -- A positive `Retry-After` is obeyed up to `max_delay`, whatever the attempt and with no jitter.
    pub calculate_delay_obeys :
        (attempt n : ℕ) (s : S)
        → 0 < n
        → calculate_delay fl env attempt c (some n) s ≡ (ok (min_float fl (of_ℕ n) c.max_delay), s)
    unfolding calculate_delay
    calculate_delay_obeys attempt n s h = ground arith
