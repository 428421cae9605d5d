-- ===== src/AsyncWorker/Intake/Order.antt =====
-- src/spooled/worker/async_worker.py: `start()` returns only when `stop()` is through.
use spooled_sdk_python.Prelude.{
  ℕ, zero, suc, ◌&&◌, not, Bool, true, false, some, List, [], ◌∷◌, Str, is_set, ◌||◌, ◌≡◌, refl, ap,
  arith, Bool-cases, if_true, if_false, inl, inr, if◌then◌else◌,
}
use spooled_sdk_python.Errors.{Result, ok, raised}
use spooled_sdk_python.Worker.{
  ClaimedJob, Options, WorkerState, idle, starting, running, stopped, error, is_running,
  is_stopping, is_idle, find_job, is_same,
}
use spooled_sdk_python.AsyncWorker.Intake.{
  Start, uncalled, registering, claiming, releasing, resting, holding, returned, failed, Stop,
  unasked, draining, settling, finished, crashed, Intake, Step, start_called, registration_answered,
  claim_answered, release_answered, pause_elapsed, shutdown_seen, stopped_seen, stop_called,
  claim_waited, drain_ended, jobs_settled, deregistered, abandon_raises, job_cleaned, new_intake,
  call_start, begin_claim, poll, register_job, releasing_id, take_jobs, leave, poll_again,
  registered_as, call_stop, finish_stop, send_deregister, on_claim, on_registration, release_next,
  is_uncalled, is_registering, is_claiming, is_resting, is_holding, is_unasked, is_awaiting_claim,
  is_draining, is_settling, is_deregistering, clean_job, step, run,
}

-- When `start()` may be where, and when `stop()`.
abbrev is_before : WorkerState → Bool
is_before idle = true
is_before starting = true
is_before running = true
is_before error = true
is_before _ = false

abbrev is_stopped : WorkerState → Bool
is_stopped stopped = true
is_stopped _ = false

abbrev is_starting : WorkerState → Bool
is_starting starting = true
is_starting _ = false

abbrev is_polling : WorkerState → Bool
is_polling s = is_running s || (is_stopping s || is_stopped s)

abbrev pub is_through : Stop → Bool
is_through finished = true
is_through crashed = true
is_through _ = false

abbrev fits_stop : Stop → WorkerState → Bool
fits_stop unasked s = is_before s
fits_stop finished s = is_stopped s
fits_stop _ s = is_stopping s

abbrev fits_start : Start → Stop → WorkerState → Bool
fits_start uncalled t s = is_idle s
fits_start registering t s = is_starting s
fits_start failed t s = true
fits_start returned t s = is_through t
fits_start holding t s = is_stopping s || is_stopped s
fits_start _ t s = is_polling s

abbrev iff : Bool → Bool → Bool
iff true b = b
iff false b = not b

-- The states of the two tasks and of the worker fit; the events say how far `stop()` is.
abbrev IsOrdered : Intake → Type 0
IsOrdered w =
    (fits_stop w.stop w.state ≡ true)
    × (fits_start w.start w.stop w.state ≡ true)
    × (not w.shutdown_event || not (is_unasked w.stop) ≡ true)
    × (iff w.stopped_event (is_through w.stop) ≡ true)

Ordered-if : (b : Bool) (y z : Intake) → IsOrdered y → IsOrdered z → IsOrdered (if b then y else z)
Ordered-if true y z h k = h
Ordered-if false y z h k = k

-- An answer may come to `start()` where it is between registration and return.
abbrev IsPolling : Intake → Type 0
IsPolling w =
    (fits_stop w.stop w.state ≡ true)
    × (is_polling w.state ≡ true)
    × (not w.shutdown_event || not (is_unasked w.stop) ≡ true)
    × (iff w.stopped_event (is_through w.stop) ≡ true)

Ordered-take_jobs : (js : List ClaimedJob) (w : Intake) → IsPolling w → IsOrdered (take_jobs js w)
unfolding take_jobs register_job
Ordered-take_jobs [] w h = ground (arith, h)
Ordered-take_jobs (j ∷ js) w h =
    Ordered-if (not w.intake_closed) _ _ (Ordered-take_jobs js (register_job j w) h)
      (Ordered-if (is_set (releasing_id w)) _ _ (ground (arith, h)) (Ordered-take_jobs js w h))

Ordered-begin_claim : (n : ℕ) (w : Intake) → IsPolling w → IsOrdered (begin_claim n w)
unfolding begin_claim
Ordered-begin_claim zero w h = ground (arith, h)
Ordered-begin_claim (suc n) w h = ground (arith, h)

Ordered-path : (x y : Intake) → x ≡ y → IsOrdered y → IsOrdered x
Ordered-path x y e h = rw e h

Ordered-leave : (w : Intake) → IsPolling w → is_running w.state ≡ false → IsOrdered (leave w)
unfolding leave
Ordered-leave w h r = ground (arith, h, r)

Ordered-poll_again : (w : Intake) → IsPolling w → IsOrdered (poll_again w)
unfolding poll_again poll
Ordered-poll_again w h = elim (Bool-cases (is_running w.state)) [
  | inl r ↦ Ordered-path _ _ (if_true _ _ _ r) (
      Ordered-if (is_running w.state && is_set w.worker_id) _ _ (Ordered-begin_claim _ w h)
        (ground (arith, h)))
  | inr r ↦ Ordered-path _ _ (if_false _ _ _ r) (Ordered-leave w h r)
]

Ordered-call_start : (w : Intake) → IsOrdered w → IsOrdered (call_start w)
unfolding call_start
Ordered-call_start w h = ground (arith, h)

Polling-registered :
    (id : Str) (w : Intake)
    → is_registering w.start ≡ true
    → IsOrdered w
    → IsPolling (record w { worker_id = some id; registered_worker_id = some id; state = running })
Polling-registered id w r h = ground (arith, h, r)

Ordered-on_registration :
    (r : Result Str) (w : Intake)
    → is_registering w.start ≡ true
    → IsOrdered w
    → IsOrdered (on_registration r w)
unfolding registered_as
Ordered-on_registration (ok id) w s h = Ordered-poll_again _ (Polling-registered id w s h)
Ordered-on_registration (raised e) w s h = ground (arith, h, s)

abbrev is_returned : Start → Bool
is_returned returned = true
is_returned _ = false

abbrev polls : Start → Bool
polls (claiming n) = true
polls (releasing js) = true
polls resting = true
polls _ = false

ongoing : (w : Intake) → IsOrdered w → polls w.start ≡ true → IsPolling w
ongoing w h r = ground (arith, h, r)

Ordered-release_next :
    (p : Start) (w : Intake) → w.start ≡ p → IsOrdered w → IsOrdered (release_next p w)
Ordered-release_next (releasing js) w e h = Ordered-take_jobs js w (ongoing w h (ap polls e))
Ordered-release_next uncalled w e h = h
Ordered-release_next registering w e h = h
Ordered-release_next (claiming n) w e h = h
Ordered-release_next resting w e h = h
Ordered-release_next holding w e h = h
Ordered-release_next returned w e h = h
Ordered-release_next failed w e h = h

claiming-polls : (p : Start) → is_claiming p ≡ true → polls p ≡ true
claiming-polls p h = ground (arith, h)

resting-polls : (p : Start) → is_resting p ≡ true → polls p ≡ true
resting-polls p h = ground (arith, h)

Ordered-on_claim :
    (r : Result (List ClaimedJob)) (w : Intake) → IsPolling w → IsOrdered (on_claim r w)
Ordered-on_claim (ok js) w h = Ordered-take_jobs js w h
Ordered-on_claim (raised e) w h = ground (arith, h)

Ordered-shutdown :
    (w : Intake) → IsOrdered w → is_resting w.start && w.shutdown_event ≡ true → IsOrdered (leave w)
unfolding leave
Ordered-shutdown w h b = ground (arith, h, b)

Ordered-stopped :
    (w : Intake)
    → IsOrdered w
    → is_holding w.start && w.stopped_event ≡ true
    → IsOrdered (record w { start = returned })
Ordered-stopped w h b = ground (arith, h, b)

Ordered-call_stop : (w : Intake) → is_unasked w.stop ≡ true → IsOrdered w → IsOrdered (call_stop w)
unfolding call_stop
Ordered-call_stop w u h = ground (arith, h, u)

Ordered-claim_waited :
    (w : Intake)
    → is_awaiting_claim w.stop ≡ true
    → IsOrdered w
    → IsOrdered (record w { stop = draining })
Ordered-claim_waited w p h = ground (arith, h, p)

Ordered-drain_ended :
    (w : Intake)
    → is_draining w.stop ≡ true
    → IsOrdered w
    → IsOrdered (record w { intake_closed = true; stop = settling })
Ordered-drain_ended w p h = ground (arith, h, p)

Ordered-send_deregister :
    (w : Intake) → is_settling w.stop ≡ true → IsOrdered w → IsOrdered (send_deregister w)
unfolding send_deregister
Ordered-send_deregister w p h = ground (arith, h, p)

Ordered-finish_stop :
    (w : Intake) → is_deregistering w.stop ≡ true → IsOrdered w → IsOrdered (finish_stop w)
Ordered-finish_stop w p h = ground (arith, h, p)

Ordered-abandon_raises :
    (w : Intake)
    → is_settling w.stop ≡ true
    → IsOrdered w
    → IsOrdered (record w { stopped_event = true; stop = crashed })
Ordered-abandon_raises w p h = ground (arith, h, p)

Ordered-clean_job : (id : Str) (a : ℕ) (w : Intake) → IsOrdered w → IsOrdered (clean_job id a w)
unfolding clean_job
Ordered-clean_job id a w h = Ordered-if (is_same a (find_job id w.active_jobs)) _ _ h h

Ordered-when :
    (b : Bool) (w y : Intake)
    → IsOrdered w
    → (b ≡ true → IsOrdered y)
    → IsOrdered (if b then y else w)
Ordered-when true w y h k = k refl
Ordered-when false w y h k = h

Ordered-step : (s : Step) (w : Intake) → IsOrdered w → IsOrdered (step s w)
unfolding step
Ordered-step start_called w h =
    Ordered-when (is_uncalled w.start) w _ h (λ b. Ordered-call_start w h)
Ordered-step (registration_answered r) w h =
    Ordered-when (is_registering w.start) w _ h (λ b. Ordered-on_registration r w b h)
Ordered-step (claim_answered r) w h =
    Ordered-when (is_claiming w.start) w _ h
      (λ b. Ordered-on_claim r w (ongoing w h (claiming-polls w.start b)))
Ordered-step release_answered w h = Ordered-release_next w.start w refl h
Ordered-step pause_elapsed w h =
    Ordered-when (is_resting w.start) w _ h
      (λ b. Ordered-poll_again w (ongoing w h (resting-polls w.start b)))
Ordered-step shutdown_seen w h =
    Ordered-when (is_resting w.start && w.shutdown_event) w _ h (λ b. Ordered-shutdown w h b)
Ordered-step stopped_seen w h =
    Ordered-when (is_holding w.start && w.stopped_event) w _ h (λ b. Ordered-stopped w h b)
Ordered-step stop_called w h = Ordered-when (is_unasked w.stop) w _ h (λ b. Ordered-call_stop w b h)
Ordered-step claim_waited w h =
    Ordered-when (is_awaiting_claim w.stop) w _ h (λ b. Ordered-claim_waited w b h)
Ordered-step drain_ended w h =
    Ordered-when (is_draining w.stop) w _ h (λ b. Ordered-drain_ended w b h)
Ordered-step jobs_settled w h =
    Ordered-when (is_settling w.stop) w _ h (λ b. Ordered-send_deregister w b h)
Ordered-step deregistered w h =
    Ordered-when (is_deregistering w.stop) w _ h (λ b. Ordered-finish_stop w b h)
Ordered-step abandon_raises w h =
    Ordered-when (is_settling w.stop) w _ h (λ b. Ordered-abandon_raises w b h)
Ordered-step (job_cleaned id a) w h = Ordered-clean_job id a w h

Ordered-run : (steps : List Step) (w : Intake) → IsOrdered w → IsOrdered (run steps w)
unfolding run
Ordered-run [] w h = h
Ordered-run (s ∷ rest) w h = Ordered-run rest (step s w) (Ordered-step s w h)

returned-through : (w : Intake) → IsOrdered w → w.start ≡ returned → is_through w.stop ≡ true
returned-through w h e = ground (arith, h, ap is_returned e)

-- However `start()` and `stop()` interleave, with any answers: a `start()` that has returned did so
-- after `stop()` had ended, by its deregistration or by an exception of a job's heartbeat task.
pub start_returns_last :
    (steps : List Step) (o : Options) (h : Bool)
    → (run steps (new_intake o h)).start ≡ returned
    → is_through (run steps (new_intake o h)).stop ≡ true
unfolding new_intake
start_returns_last steps o h e =
    returned-through (run steps (new_intake o h))
      (Ordered-run steps (new_intake o h) (refl, refl, refl, refl)) e
