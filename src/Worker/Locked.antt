-- ===== src/Worker/Locked.antt =====
-- src/spooled/worker/worker.py: what the methods do while they hold `self._lock`. Each function is
-- one such section, so no other thread sees the worker in between.
use spooled_sdk_python.Prelude.{
  ℕ, ◌+◌, ◌-◌, ◌==◌, leb, Bool, true, false, not, ◌&&◌, ◌||◌, Option, none, some, List, [], ◌∷◌,
  ◌++◌, Str, is_set, is_some, length, if◌then◌else◌,
}
use spooled_sdk_python.Worker.{
  ClaimedJob, ActiveJob, Worker, new_active_job, find_exec, modify_exec, put_job, delete_job,
  cancel, flag, is_running, is_settled, is_lost, owns,
}

abbrev pub on_exec : ℕ → (ActiveJob → ActiveJob) → Worker → Worker
on_exec a f w = record w { execs = modify_exec a f w.execs }

-- `_claim_settlement`: the worker id, if this call takes the right to ack the execution.
unfoldable pub settlement : ℕ → Worker → Option Str
settlement a w =
    if is_lost a w || is_settled a w || not (owns a w)
    then none
    else if not (is_set w.worker_id)
    then none
    else w.worker_id

unfoldable pub settle : ℕ → Worker → Worker
settle a w = if is_some (settlement a w) then on_exec a (λ x. record x { settled = true }) w else w

-- `active.abort_event.set()`.
unfoldable pub set_abort : ℕ → Worker → Worker
set_abort a = on_exec a (λ x. record x { abort = true })

abbrev cancel_both : Option ActiveJob → List Bool → List Bool
cancel_both none ts = ts
cancel_both (some x) ts = cancel x.timeout_timer (cancel x.heartbeat_timer ts)

abbrev job_key : Option ActiveJob → Option Str
job_key none = none
job_key (some x) = some x.job.id

abbrev delete_key : Option Str → List (Str × ℕ) → List (Str × ℕ)
delete_key none d = d
delete_key (some k) d = delete_job k d

-- `if self._active_jobs.get(active.job.id) is active: del self._active_jobs[active.job.id]`.
unfoldable pub drop_job : ℕ → Worker → Worker
drop_job a w =
    if owns a w
    then record w { active_jobs = delete_key (job_key (find_exec a w.execs)) w.active_jobs }
    else w

unfoldable pub cancel_timers : ℕ → Worker → Worker
cancel_timers a w = record w { timers = cancel_both (find_exec a w.execs) w.timers }

unfoldable pub is_abandoned : ℕ → Worker → Bool
is_abandoned a w = flag (λ x. x.abandoned) (find_exec a w.execs)

-- The last section of `_abandon_job`.
abbrev mark_if : Option ActiveJob → ℕ → Worker → Worker
mark_if none a w = w
mark_if (some x) a w = if x.abandoned then w else record w {
  execs = modify_exec a (λ y. record y { abandoned = true }) w.execs;
  abandoned_running = w.abandoned_running + 1;
}

unfoldable pub mark_abandoned : ℕ → Worker → Worker
mark_abandoned a w = mark_if (find_exec a w.execs) a w

unfoldable pub abandon : ℕ → Worker → Worker
unfolding drop_job mark_abandoned cancel_timers
abandon a w = cancel_timers a (mark_abandoned a (drop_job a w))

-- `_cleanup_job`; `max(0, n - 1)` is the subtraction of the natural numbers.
unfoldable pub free_slot : ℕ → Worker → Worker
free_slot a w =
    if is_abandoned a w
    then record w {
      execs = modify_exec a (λ x. record x { abandoned = false }) w.execs;
      abandoned_running = w.abandoned_running - 1;
    }
    else w

unfoldable pub cleanup : ℕ → Worker → Worker
unfolding drop_job free_slot cancel_timers
cleanup a w = cancel_timers a (free_slot a (drop_job a w))

-- The section of `_lose_lease`.
unfoldable pub lose : ℕ → Worker → Worker
unfolding cancel_timers
lose a w =
    if is_lost a w
    then w
    else on_exec a
        (λ x. record x { lease_lost = true; heartbeat_timer = none; timeout_timer = none })
        (cancel_timers a w)

-- `_start_job_timeout`: a new timer, unless the execution is settled.
unfoldable pub arm_timeout : ℕ → Worker → Worker
arm_timeout a w = if is_settled a w then w else record w {
  execs = modify_exec a (λ x. record x { timeout_timer = some (length w.timers) }) w.execs;
  timers = w.timers ++ false ∷ [];
}

-- `_schedule_job_heartbeat`: whether a first or a further heartbeat is armed, and the new timer.
unfoldable pub beats_on : ℕ → Worker → Bool
beats_on a w = not (is_lost a w) && not (is_settled a w) && owns a w

unfoldable pub arm_heartbeat : Bool → ℕ → Worker → Worker
arm_heartbeat false a w = w
arm_heartbeat true a w = record w {
  execs = modify_exec a (λ x. record x { heartbeat_timer = some (length w.timers) }) w.execs;
  timers = w.timers ++ false ∷ [];
}

-- The section of `_process_job`: a new execution, unless the intake is closed.
unfoldable pub take_in : ClaimedJob → Worker → Worker
unfolding new_active_job
take_in j w = if w.intake_closed then w else record w {
  execs = w.execs ++ new_active_job j ∷ [];
  active_jobs = put_job j.id (length w.execs) w.active_jobs;
}

-- The first section of `_poll`: whether it claims, and for how many slots.
unfoldable pub used_slots : Worker → ℕ
used_slots w = length w.active_jobs + w.abandoned_running

unfoldable pub polls : Worker → Bool
unfolding used_slots
polls w = is_running w.state && is_set w.worker_id && not (leb w.options.concurrency (used_slots w))

unfoldable pub available_slots : Worker → ℕ
unfolding used_slots
available_slots w = w.options.concurrency - used_slots w

unfoldable pub begin_poll : ℕ → Worker → Worker
unfolding polls
begin_poll me w =
    if polls w
    then record w { poll_in_flight = w.poll_in_flight + 1; poll_thread_id = some me }
    else w

-- The `finally` of `_poll`.
unfoldable pub end_poll : Worker → Worker
end_poll w =
    let n = w.poll_in_flight - 1 in
    record w { poll_in_flight = n; poll_thread_id = if n == 0 then none else w.poll_thread_id }
