-- ===== src/AsyncWorker/Intake/Capacity.antt =====
-- src/spooled/worker/async_worker.py: how many jobs the worker holds at once.
use spooled_sdk_python.Prelude.{
  ℕ, zero, suc, ◌+◌, ◌&&◌, not, Bool, true, false, List, [], ◌∷◌, Str, is_set, ◌≤◌, leb, ◌||◌, ◌≡◌,
  refl, ap, arith, Bool-cases, if_true, if_false, inl, inr, length, if◌then◌else◌,
}
use spooled_sdk_python.Errors.{Result, ok, raised}
use spooled_sdk_python.Worker.{ClaimedJob, Options, is_running, put_job, delete_job}
use spooled_sdk_python.AsyncWorker.Intake.{
  Start, uncalled, registering, claiming, releasing, resting, holding, returned, failed, settling,
  Intake, Step, start_called, registration_answered, claim_answered, release_answered,
  pause_elapsed, shutdown_seen, stopped_seen, stop_called, claim_waited, drain_ended, jobs_settled,
  deregistered, abandon_raises, job_cleaned, new_intake, call_start, begin_claim, poll,
  register_job, releasing_id, take_jobs, leave, poll_again, registered_as, call_stop,
  send_deregister, on_claim, on_registration, release_next, is_uncalled, is_registering,
  is_claiming, is_resting, is_holding, is_unasked, is_awaiting_claim, is_draining, is_settling,
  is_deregistering, clean_job, step, run,
}

-- What a claim in flight may still bring.
abbrev pub pending : Start → ℕ
pending (claiming n) = n
pending _ = 0

abbrev is_releasing : Start → Bool
is_releasing (releasing js) = true
is_releasing _ = false

-- The jobs that are active or asked for are within the worker's concurrency; who releases the jobs
-- of a claim does so because the intake is closed.
abbrev IsWithin : Intake → Type 0
IsWithin w =
    (length w.active_jobs + pending w.start ≤ w.options.concurrency)
    × (not (is_releasing w.start) || w.intake_closed ≡ true)

-- The server answers a claim with at most as many jobs as it asked for.
abbrev keeps_limit : Step → Start → Bool
keeps_limit (claim_answered (ok js)) (claiming n) = leb (length js) n
keeps_limit _ _ = true

unfoldable pub all_keep_limit : List Step → Intake → Bool
all_keep_limit [] w = true
all_keep_limit (s ∷ rest) w = keeps_limit s w.start && all_keep_limit rest (step s w)

length-put_job : (k : Str) (a : ℕ) (d : List (Str × ℕ)) → length (put_job k a d) ≤ length d + 1
unfolding put_job
length-put_job k a [] = omega arith
length-put_job k a ((j, b) ∷ d) = let h = length-put_job k a d in ground (arith, h)

length-delete_job : (k : Str) (d : List (Str × ℕ)) → length (delete_job k d) ≤ length d
unfolding delete_job
length-delete_job k [] = omega arith
length-delete_job k ((j, b) ∷ d) = let h = length-delete_job k d in ground (arith, h)

-- What the loop over the jobs of a claim may add.
abbrev incoming : Bool → List ClaimedJob → ℕ
incoming true js = 0
incoming false js = length js

Within-if : (b : Bool) (y z : Intake) → IsWithin y → IsWithin z → IsWithin (if b then y else z)
Within-if true y z h k = h
Within-if false y z h k = k

Within-started :
    (j : ClaimedJob) (js : List ClaimedJob) (w : Intake)
    → w.intake_closed ≡ false
    → length w.active_jobs + incoming w.intake_closed (j ∷ js) ≤ w.options.concurrency
    → length (register_job j w).active_jobs + incoming (register_job j w).intake_closed js
      ≤ w.options.concurrency
unfolding register_job
Within-started j js w c h =
    let p = length-put_job j.id w.made w.active_jobs in ground (arith, h, p, c)

Within-path : (x y : Intake) → x ≡ y → IsWithin y → IsWithin x
Within-path x y e h = rw e h

Within-take_jobs :
    (js : List ClaimedJob) (w : Intake)
    → length w.active_jobs + incoming w.intake_closed js ≤ w.options.concurrency
    → IsWithin (take_jobs js w)
unfolding take_jobs register_job
Within-take_jobs [] w h = ground (arith, h)
Within-take_jobs (j ∷ js) w h = elim (Bool-cases w.intake_closed) [
  | inl c ↦ Within-path _ _ (if_false _ _ _ (ap not c)) (
      Within-if (is_set (releasing_id w)) _ _ (ground (arith, h, c))
        (Within-take_jobs js w (ground (arith, h, c))))
  | inr c ↦
      Within-path _ _ (if_true _ _ _ (ap not c))
        (Within-take_jobs js (register_job j w) (Within-started j js w c h))
]

Within-begin_claim :
    (n : ℕ) (w : Intake)
    → length w.active_jobs + n ≤ w.options.concurrency
    → IsWithin (begin_claim n w)
unfolding begin_claim
Within-begin_claim zero w h = ground (arith, h)
Within-begin_claim (suc n) w h = ground (arith, h)

Within-leave : (w : Intake) → length w.active_jobs ≤ w.options.concurrency → IsWithin (leave w)
unfolding leave
Within-leave w h = ground (arith, h)

Within-poll_again :
    (w : Intake) → length w.active_jobs ≤ w.options.concurrency → IsWithin (poll_again w)
unfolding poll_again poll leave
Within-poll_again w h =
    Within-if (is_running w.state) _ _
      (Within-if (is_running w.state && is_set w.worker_id) _ _
        (Within-begin_claim _ w (omega (arith, h))) (ground (arith, h)))
      (Within-leave w h)

Within-call_start : (w : Intake) → IsWithin w → IsWithin (call_start w)
unfolding call_start
Within-call_start w h = ground (arith, h)

Within-on_registration : (r : Result Str) (w : Intake) → IsWithin w → IsWithin (on_registration r w)
unfolding registered_as
Within-on_registration (ok id) w h = Within-poll_again _ (ground (arith, h))
Within-on_registration (raised e) w h = ground (arith, h)

Within-on_claim :
    (r : Result (List ClaimedJob)) (w : Intake)
    → is_claiming w.start ≡ true
    → keeps_limit (claim_answered r) w.start ≡ true
    → IsWithin w
    → IsWithin (on_claim r w)
Within-on_claim (ok js) w c k h = Within-take_jobs js w (ground (arith, h, c, k))
Within-on_claim (raised e) w c k h = ground (arith, h)

Within-release_next :
    (p : Start) (w : Intake)
    → length w.active_jobs ≤ w.options.concurrency
    → not (is_releasing p) || w.intake_closed ≡ true
    → IsWithin w
    → IsWithin (release_next p w)
Within-release_next (releasing js) w l c h = Within-take_jobs js w (ground (arith, l, c))
Within-release_next uncalled w l c h = h
Within-release_next registering w l c h = h
Within-release_next (claiming n) w l c h = h
Within-release_next resting w l c h = h
Within-release_next holding w l c h = h
Within-release_next returned w l c h = h
Within-release_next failed w l c h = h

Within-clean_job : (id : Str) (a : ℕ) (w : Intake) → IsWithin w → IsWithin (clean_job id a w)
unfolding clean_job
Within-clean_job id a w h = let p = length-delete_job id w.active_jobs in ground (arith, h, p)

Within-when :
    (b : Bool) (w y : Intake) → IsWithin w → (b ≡ true → IsWithin y) → IsWithin (if b then y else w)
Within-when true w y h k = k refl
Within-when false w y h k = h

Within-call_stop : (w : Intake) → IsWithin w → IsWithin (call_stop w)
unfolding call_stop
Within-call_stop w h = ground (arith, h)

Within-send_deregister : (w : Intake) → IsWithin w → IsWithin (send_deregister w)
unfolding send_deregister
Within-send_deregister w h = ground (arith, h)

within_active : (w : Intake) → IsWithin w → length w.active_jobs ≤ w.options.concurrency
within_active w h = omega (arith, h.0)

Within-close :
    (w : Intake) → IsWithin w → IsWithin (record w { intake_closed = true; stop = settling })
Within-close w h = ground (arith, h)

Within-return : (w : Intake) → IsWithin w → IsWithin (record w { start = returned })
Within-return w h = ground (arith, h)

Within-step :
    (s : Step) (w : Intake) → keeps_limit s w.start ≡ true → IsWithin w → IsWithin (step s w)
unfolding step
Within-step start_called w k h =
    Within-when (is_uncalled w.start) w _ h (λ b. Within-call_start w h)
Within-step (registration_answered r) w k h =
    Within-when (is_registering w.start) w _ h (λ b. Within-on_registration r w h)
Within-step (claim_answered r) w k h =
    Within-when (is_claiming w.start) w _ h (λ b. Within-on_claim r w b k h)
Within-step release_answered w k h = Within-release_next w.start w (within_active w h) h.1 h
Within-step pause_elapsed w k h =
    Within-when (is_resting w.start) w _ h (λ b. Within-poll_again w (within_active w h))
Within-step shutdown_seen w k h =
    Within-when (is_resting w.start && w.shutdown_event) w _ h
      (λ b. Within-leave w (within_active w h))
Within-step stopped_seen w k h =
    Within-when (is_holding w.start && w.stopped_event) w _ h (λ b. Within-return w h)
Within-step stop_called w k h = Within-when (is_unasked w.stop) w _ h (λ b. Within-call_stop w h)
Within-step claim_waited w k h = Within-when (is_awaiting_claim w.stop) w _ h (λ b. h)
Within-step drain_ended w k h = Within-when (is_draining w.stop) w _ h (λ b. Within-close w h)
Within-step jobs_settled w k h =
    Within-when (is_settling w.stop) w _ h (λ b. Within-send_deregister w h)
Within-step deregistered w k h = Within-when (is_deregistering w.stop) w _ h (λ b. h)
Within-step abandon_raises w k h = Within-when (is_settling w.stop) w _ h (λ b. h)
Within-step (job_cleaned id a) w k h = Within-clean_job id a w h

Within-run :
    (steps : List Step) (w : Intake)
    → all_keep_limit steps w ≡ true
    → IsWithin w
    → IsWithin (run steps w)
unfolding run all_keep_limit
Within-run [] w k h = h
Within-run (s ∷ rest) w k h =
    Within-run rest (step s w) (ground (arith, k)) (Within-step s w (ground (arith, k)) h)

-- Where the server answers each claim with at most as many jobs as the worker asked for, a new
-- worker never has more jobs active, or active and asked for together, than its concurrency,
-- whatever its tasks do.
pub active_jobs_bounded :
    (steps : List Step) (o : Options) (h : Bool)
    → all_keep_limit steps (new_intake o h) ≡ true
    → let w = run steps (new_intake o h) in
      length w.active_jobs + pending w.start ≤ w.options.concurrency
unfolding new_intake
active_jobs_bounded steps o h k = (Within-run steps (new_intake o h) k (omega arith, refl)).0
