-- ===== src/Worker/Jobs.antt =====
-- src/spooled/worker/worker.py: the other methods on one job, from its arrival to the end of its
-- handler, as programs. Each takes what follows it as its last argument.
use spooled_sdk_python.Prelude.{
  ℕ, ◌&&◌, ltb, Bool, true, false, Option, none, some, Str, codes, is_set, length, if◌then◌else◌,
}
use spooled_sdk_python.Prelude.Int.{ℤ, pos, negsuc}
use spooled_sdk_python.Json.{Value}
use spooled_sdk_python.Errors.{Exn, Result, ok, raised, is_lease_expired}
use spooled_sdk_python.Worker.{ClaimedJob, Worker, Executor, missing, live, shut, is_settled, owns}
use spooled_sdk_python.Worker.Locked.{beats_on}
use spooled_sdk_python.Worker.Section.{cleans, arms_timeout, arms_heartbeat, takes}
use spooled_sdk_python.Worker.Prog.{
  Prog, done, locked, call, emit, handle, spawn, fail, heartbeat, Response, failed, job_claimed,
  job_started, job_failed, execute_handler, job_heartbeat, job_timeout,
}
use spooled_sdk_python.Worker.Settling.{
  coerce_fail_error, or_empty, read, with_job, on_lease, lose_lease, complete_job, fail_job,
}

-- `_release_unstarted_job`; the first argument is `_UNSTARTED_CLAIM_ERROR` after coercion.
unfoldable pub unstarted_claim_error : Str
unfolding coerce_fail_error
unstarted_claim_error = coerce_fail_error (codes "Worker stopped before the job started")

unfoldable pub released : ClaimedJob → Prog → Result Response → Prog
released j k (ok r) =
    emit (job_failed j.id unstarted_claim_error (ltb j.retry_count j.max_retries)) k
released j k (raised e) = emit failed k

abbrev pub releasing_id : Worker → Option Str
releasing_id w = if is_set w.worker_id then w.worker_id else w.registered_worker_id

unfoldable pub release_unstarted_job : ClaimedJob → Prog → Prog
unfolding released
release_unstarted_job j k = read λ w.
    if is_set (releasing_id w)
    then call none (fail j.id (or_empty (releasing_id w)) j.lease_id unstarted_claim_error)
        (released j k)
    else k

-- `_schedule_job_heartbeat`: the first timer, and `send_heartbeat`. An exception of the lease test
-- itself ends the timer's thread.
unfoldable pub schedule_job_heartbeat : ℕ → Prog → Prog
schedule_job_heartbeat a k =
    locked (arms_heartbeat true a)
      λ w. if owns a w then spawn (job_heartbeat (length w.timers) a) k else k

unfoldable pub next_heartbeat : ℕ → Prog
next_heartbeat a =
    locked (arms_heartbeat false a)
      λ w. if beats_on a w then spawn (job_heartbeat (length w.timers) a) done else done

unfoldable pub heartbeat_sent : ℕ → Result Response → Prog
unfolding next_heartbeat lose_lease
heartbeat_sent a (ok r) = next_heartbeat a
heartbeat_sent a (raised e) =
    on_lease (is_lease_expired e) (lose_lease a (codes "heartbeat") done)
      (emit failed (next_heartbeat a)) done

unfoldable pub send_heartbeat : ℕ → Prog
unfolding heartbeat_sent
send_heartbeat a =
    with_job a
      (λ j. read λ w.
        if beats_on a w && is_set w.worker_id
        then call (some a)
            (heartbeat j.id (or_empty w.worker_id) j.lease_id w.options.lease_duration)
            (heartbeat_sent a)
        else done)
      done

abbrev is_positive : ℤ → Bool
is_positive (pos n) = ltb 0 n
is_positive (negsuc n) = false

-- `_start_job_timeout`.
unfoldable pub start_job_timeout : ℕ → Prog → Prog
start_job_timeout a k =
    with_job a
      (λ j.
        let arm =
          (locked (arms_timeout a)
            λ w. if is_settled a w then k else spawn (job_timeout (length w.timers) a) k) in
        if is_positive j.timeout_seconds then arm else k)
      k

-- The end of `_execute_handler`. The text of an exception of the handler is `show`'s.
unfoldable pub handled : (Exn → Str) → ℕ → Result Value → Prog
unfolding complete_job fail_job
handled show a (ok result) = complete_job a result (locked (cleans a) λ w. done)
handled show a (raised e) = fail_job a (show e) (locked (cleans a) λ w. done)

-- `_execute_handler`.
unfoldable pub run_handler : (Exn → Str) → ℕ → Prog
unfolding start_job_timeout handled
run_handler show a =
    with_job a (λ j. emit (job_started j.id) (start_job_timeout a (handle a (handled show a)))) done

-- The submission to the executor in `_process_job`: it reads `self._executor` twice. `broken` is
-- what follows an exception.
abbrev pub submit_to : ℕ → Executor → Prog → Prog → Prog
submit_to a live k broken = spawn (execute_handler a) k
submit_to a shut k broken = locked (cleans a) λ w. k
submit_to a missing k broken = broken

abbrev pub is_missing : Executor → Bool
is_missing missing = true
is_missing _ = false

-- `_process_job`.
unfoldable pub process_job : ClaimedJob → Prog → Prog → Prog
unfolding release_unstarted_job schedule_job_heartbeat
process_job j k broken = locked (takes j) λ w.
    let a = length w.execs in
    let submit =
      (read λ u. if is_missing u.executor then k else read λ v. submit_to a v.executor k broken) in
    if w.intake_closed
    then release_unstarted_job j k
    else emit (job_claimed j.id) (schedule_job_heartbeat a submit)
