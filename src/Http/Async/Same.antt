-- ===== src/Http/Async/Same.antt =====
-- src/spooled/utils/async_http.py and src/spooled/utils/http.py: the two clients do the same.
use spooled_sdk_python.Prelude.{
  ℕ, zero, suc, ◌+◌, not, Bool, true, false, Option, none, some, Str, if◌then◌else◌, ◌≡◌, refl, ◌∙◌,
  ap, sym, arith,
}
use mathlib.Core.Path.{fun_ext}
use spooled_sdk_python.Errors.{Exn, Result, ok, raised, runtime_error, rate_limit_retry_after}
use spooled_sdk_python.Effects.{M, Part, pure, raise, gets, modify, catch, ◌>>=◌, ◌>>◌}
use spooled_sdk_python.Breaker.{
  CircuitBreaker, is_allowed, execute, check_allowed, on_success, on_failure, open_error,
}
use spooled_sdk_python.Retry.{
  Floats, RetryConfig, Env, should_retry, calculate_delay, retry_loop, with_retry, wait, notify,
}
use spooled_sdk_python.Http.{Request, HttpResponse, Reply, Client, is_idempotent}
use spooled_sdk_python.Http.Pipeline.{
  Net, same_token, token, send, finish, refresh_once, try_refresh_with, try_refresh_token,
  wants_refresh, execute_replay, execute_request, guarded, request,
}
use spooled_sdk_python.Http.Async.{
  retry_rounds, with_retry_async, tell, refresh_by, refresh_async, may_refresh, refreshed,
  after_send, execute_body, execute_async, execute_with_cb, request_async,
}

if_not : {A : Type 0} (b : Bool) (x y : A) → (if not b then x else y) ≡ (if b then y else x)
if_not true x y = refl
if_not false x y = refl

choose :
    {S A : Type 0} (b : Bool) (x y z : M S A) (t : S)
    → y t ≡ z t
    → (if not b then y else x) t ≡ (if b then x else z) t
choose true x y z t h = refl
choose false x y z t h = h

-- What follows a step may be exchanged for what does the same.
bind_same :
    {S A B : Type 0} (m : M S A) (f g : A → M S B)
    → ((a : A) (s : S) → f a s ≡ g a s)
    → (m >>= f) ≡ (m >>= g)
bind_same m f g h = ap (λ k. m >>= k) (fun_ext (λ a. fun_ext (h a)))

assoc_at :
    {S A B C : Type 0} (r : Result A) (u : S) (f : A → M S B) (g : B → M S C) (s : S)
    → ((λ v. (r, u)) >>= f >>= g) s ≡ ((λ (v : S). (r, u)) >>= (λ a. f a >>= g)) s
assoc_at (ok a) u f g s = refl
assoc_at (raised e) u f g s = refl

bind_assoc :
    {S A B C : Type 0} (m : M S A) (f : A → M S B) (g : B → M S C) (s : S)
    → (m >>= f >>= g) s ≡ (m >>= (λ a. f a >>= g)) s
bind_assoc m f g s = assoc_at (m s).0 (m s).1 f g s

module _ (fl : Floats) {S : Type 0} (env : Env fl S) {A : Type 0} (fn : M S A)
    (config : RetryConfig fl) (on_retry : Option (ℕ → Exn → fl.F → M S (Unit {0})))
    (idempotent : Bool) where
  tell_same :
      (o : Option (ℕ → Exn → fl.F → M S (Unit {0}))) (attempt : ℕ) (e : Exn) (delay : fl.F)
      → tell fl env fn config on_retry idempotent o attempt e delay
        ≡ notify fl env o attempt e delay
  tell_same none attempt e delay = refl
  tell_same (some f) attempt e delay = refl

  -- The rest of a round, once the error is to be retried.
  abbrev again : ℕ → Exn → M S A → M S A
  again attempt e next = do
    delay ← calculate_delay fl env attempt config (rate_limit_retry_after e)
    tell fl env fn config on_retry idempotent on_retry attempt e delay
    modify (env.sleep delay)
    next

  again_same :
      (attempt : ℕ) (e : Exn) (next : M S A)
      → again attempt e next ≡ wait fl env fn config on_retry idempotent attempt e >> next
  unfolding wait
  again_same attempt e next =
      let calc = calculate_delay fl env attempt config (rate_limit_retry_after e) in
      let told : fl.F → M S (Unit {0}) =
        λ d. notify fl env on_retry attempt e d >> modify (env.sleep d) in
      bind_same calc _ (λ d. told d >> next)
        (λ d s.
          ap (λ (m : M S (Unit {0})). (m >> (modify (env.sleep d) >> next)) s)
            (tell_same on_retry attempt e d)
          ∙ sym (
              bind_assoc (notify fl env on_retry attempt e d) (λ u. modify (env.sleep d))
                (λ u. next) s))
      ∙ sym (fun_ext (bind_assoc calc told (λ u. next)))

  rounds_same :
      (rounds attempt : ℕ) (last : Option Exn)
      → retry_rounds fl env fn config on_retry idempotent rounds attempt last
        ≡ retry_loop fl env fn config on_retry idempotent rounds attempt last
  unfolding retry_rounds retry_loop
  rounds_same zero attempt none = refl
  rounds_same zero attempt (some e) = refl
  rounds_same (suc rounds) attempt last =
      ap (λ (h : Exn → M S A). catch fn h)
        (fun_ext (λ e.
          if_not (should_retry fl e attempt config idempotent) (raise e) (
            again attempt e
              (retry_rounds fl env fn config on_retry idempotent rounds (attempt + 1) (some e)))
          ∙ ap (λ (m : M S A). if should_retry fl e attempt config idempotent then m else raise e)
              (ap (again attempt e) (rounds_same rounds (attempt + 1) (some e))
                ∙ again_same attempt e (
                    retry_loop fl env fn config on_retry idempotent rounds (attempt + 1)
                      (some e)))))

  retry_same :
      with_retry_async fl env fn config on_retry idempotent
      ≡ with_retry fl env fn config on_retry idempotent
  unfolding with_retry_async with_retry
  retry_same =
      let n : config.max_retries + 1 ≡ suc config.max_retries = omega arith in
      ap (λ k. retry_rounds fl env fn config on_retry idempotent k 1 none) n
      ∙ rounds_same (suc config.max_retries) 1 none

module _ {S : Type 0} (net : Net S) where
  open net use {cl, refresh_token_fn}

  refresh_same :
      (o : Option (M S (Unit {0}))) (before : Option Str)
      → refresh_async net o before ≡ try_refresh_with net o before
  unfolding refresh_async try_refresh_with refresh_once
  refresh_same none before = refl
  refresh_same (some fn) before = bind_same (token net) _ _ (λ now s.
      ap (λ (m : M S Bool). m s) (if_not (same_token now before) (pure true) (refresh_by net fn)))

  may_refresh-false : (r : HttpResponse) (c : Client) → may_refresh net false r c ≡ false
  unfolding may_refresh
  may_refresh-false r c = ground arith

  replay_same :
      (again : M S Reply) (q : Request) → execute_body net false again q ≡ execute_replay net q
  unfolding execute_body execute_replay
  replay_same again q = fun_ext λ s.
      let before = (cl.get s).auth_token in
      ap (λ (m : M S Reply). m s)
        (bind_same (send net q) (after_send net false again before q) (finish net q) (λ r u.
          ap (λ b. (if b then refreshed net again before q r else finish net q r) u)
            (may_refresh-false r (cl.get u))))

  may_refresh-wants :
      (r : HttpResponse) (c : Client) → may_refresh net true r c ≡ wants_refresh net r c
  unfolding may_refresh wants_refresh
  may_refresh-wants r c = ground arith

  -- The refresh of the other client, with its replay.
  abbrev renewed : Option Str → Request → HttpResponse → M S Reply
  renewed before q r = do
    usable ← try_refresh_token net before
    let replay = execute_replay net q
    if usable then replay else finish net q r

  refreshed_same :
      (before : Option Str) (q : Request) (r : HttpResponse)
      → refreshed net (execute_body net false (raise runtime_error) q) before q r
        ≡ renewed before q r
  unfolding try_refresh_token
  refreshed_same before q r =
      ap (λ m. refreshed net m before q r) (replay_same (raise runtime_error) q)
      ∙ ap
          (λ (t : M S Bool).
            t >>= (λ usable. if usable then execute_replay net q else finish net q r))
          (refresh_same refresh_token_fn before)

  execute_same : (q : Request) → execute_async net true q ≡ execute_request net q
  unfolding execute_async execute_body execute_request
  execute_same q = fun_ext λ s.
      let before = (cl.get s).auth_token in
      let replay = execute_body net false (raise runtime_error) q in
      ap (λ (m : M S Reply). m s)
        (bind_same (send net q) (after_send net true replay before q)
          (λ r. do
            c ← gets cl.get
            if wants_refresh net r c then renewed before q r else finish net q r)
          (λ r u.
            ap (λ b. (if b then refreshed net replay before q r else finish net q r) u)
              (may_refresh-wants r (cl.get u))
            ∙ ap
                (λ (m : M S Reply).
                  (if wants_refresh net r (cl.get u) then m else finish net q r) u)
                (refreshed_same before q r)))

  module _ (fl : Floats) (env : Env fl S) (cb : Part S CircuitBreaker) (now : S → ℕ)
      (show : ℕ → Str) where
    -- A call whose outcome the breaker records.
    abbrev protected : M S Reply → M S Reply
    protected m =
        catch (m >>= (λ r. on_success cb now show >> pure r))
          (λ e. on_failure cb now show e >> raise e)

    guarded_same :
        (q : Request) → execute_with_cb net fl env cb now show q ≡ guarded net fl env cb now show q
    unfolding execute_with_cb guarded execute check_allowed
    guarded_same q = fun_ext λ s.
        let allowed = (is_allowed (now s) (cb.get s)).1 in
        let t = cb.set (is_allowed (now s) (cb.get s)).0 s in
        choose allowed (protected (execute_async net true q)) (raise (open_error cb now show t))
          (λ u. raise (open_error cb now show u) u) t refl
        ∙ ap
            (λ (m : M S Reply).
              (if allowed then protected m else (λ u. raise (open_error cb now show u) u)) t)
            (execute_same q)

    -- For one request at a time, the asynchronous client does what the other one does: from every
    -- state, with any configuration, `request` returns or raises the same, and leaves the same
    -- state behind it. (What httpx answers and what other tasks change meanwhile is the same
    -- `transport`.)
    pub request_async-request :
        (config : RetryConfig fl) (skip_retry : Bool) (idempotent : Option Bool) (q : Request)
        → request_async net fl env cb now show config skip_retry idempotent q
          ≡ request net fl env cb now show config skip_retry idempotent q
    unfolding request_async request
    request_async-request config skip_retry idempotent q =
        let quiet : Option (ℕ → Exn → fl.F → M S (Unit {0})) = some (λ attempt e delay. pure tt) in
        let safe : Bool = elim idempotent [
          | none ↦ is_idempotent q.method q.body q.headers
          | some b ↦ b
        ] in
        let go = guarded_same q in
        ap (λ m. if skip_retry then m else with_retry_async fl env m config quiet safe) go
        ∙ ap (λ m. if skip_retry then guarded net fl env cb now show q else m)
            (retry_same fl env (guarded net fl env cb now show q) config quiet safe)
