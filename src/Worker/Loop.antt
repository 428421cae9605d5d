-- ===== src/Worker/Loop.antt =====
-- src/spooled/worker/worker.py: `start`, `stop`, the polling loop and the worker's own heartbeat,
-- as programs, and the program of each task. Debug output and the intervals of timers are left
-- out: a timer fires when the schedule says so.
use spooled_sdk_python.Prelude.{
  ℕ, ◌==◌, ◌&&◌, not, Bool, true, false, none, List, [], ◌∷◌, Str, codes, is_set, length,
  if◌then◌else◌,
}
use spooled_sdk_python.Errors.{Exn, Result, ok, raised}
use spooled_sdk_python.Worker.{ClaimedJob, Worker, is_running, is_stopping, is_same}
use spooled_sdk_python.Worker.Locked.{polls, available_slots, used_slots}
use spooled_sdk_python.Worker.Section.{
  keep, begins_poll, ends_poll, begins_start, sets_ids, opens_executor, runs, fails_start,
  schedules_beat, begins_stop, signals_shutdown, closes_intake, stops_beats, cancels_beat,
  shuts_executor, drops_executor, ends, clears_id, signals_stopped, starts,
}
use spooled_sdk_python.Worker.Prog.{
  Prog, done, locked, call, emit, until, spawn, timer, Request, register, deregister, claim,
  worker_heartbeat, Response, registered, jobs, Event, failed, started, Task, execute_handler,
  job_heartbeat, job_timeout, worker_beat, poll_round,
}
use spooled_sdk_python.Worker.Prog
use spooled_sdk_python.Worker.Settling.{or_empty, read, abandon_job}
use spooled_sdk_python.Worker.Jobs.{process_job, run_handler, send_heartbeat}

-- `for job in result.jobs: self._process_job(job)`.
unfoldable pub process_jobs : List ClaimedJob → Prog → Prog → Prog
unfolding process_job
process_jobs [] k broken = k
process_jobs (j ∷ js) k broken = process_job j (process_jobs js k broken) broken

-- The reply to the claim; a reply that holds no jobs is an exception of its reader.
unfoldable pub claimed : Prog → Result Response → Prog
unfolding process_jobs
claimed k (ok (jobs js)) = process_jobs js k (emit failed k)
claimed k (ok r) = emit failed k
claimed k (raised e) = emit failed k

-- `_poll`, on the thread `me`.
unfoldable pub poll : ℕ → Prog → Prog
unfolding claimed
poll me k =
    let finish = locked ends_poll λ w. k in
    locked (begins_poll me) λ w.
      if polls w
      then call none
          (claim w.options.queue_name (or_empty w.worker_id) (available_slots w)
            w.options.lease_duration)
          (claimed finish)
      else k

-- The end of `start`, once the loop is over.
unfoldable pub finish_start : Prog
finish_start =
    read λ w. if is_stopping w.state then until (λ v. v.stopped_event) keep done else done

-- A round of the loop in `start`.
unfoldable pub start_round : ℕ → Prog
unfolding poll finish_start
start_round me = read λ w.
    if is_running w.state && not w.shutdown_event
    then poll me (spawn (poll_round me) done)
    else finish_start

-- `_schedule_worker_heartbeat`.
unfoldable pub schedule_worker_heartbeat : Prog → Prog
schedule_worker_heartbeat k = locked schedules_beat λ w. spawn (worker_beat (length w.timers)) k

abbrev pub error_event : Result Response → Prog → Prog
error_event (ok r) k = k
error_event (raised e) k = emit failed k

unfoldable pub beat_sent : Result Response → Prog
unfolding schedule_worker_heartbeat
beat_sent r =
    error_event r
      (read λ w. if w.worker_heartbeat_stop then done else schedule_worker_heartbeat done)

unfoldable pub send_worker_heartbeat : Prog
unfolding beat_sent
send_worker_heartbeat = read λ w.
    if not w.worker_heartbeat_stop && is_set w.worker_id
    then call none (worker_heartbeat (or_empty w.worker_id) (used_slots w)) beat_sent
    else done

-- The reply to the registration.
unfoldable pub registration : ℕ → Result Response → Prog
unfolding schedule_worker_heartbeat
registration me (ok (registered id)) = locked (sets_ids id) λ _.
    locked opens_executor
      λ _. schedule_worker_heartbeat (locked runs λ _. emit started (spawn (poll_round me) done))
registration me (ok r) = locked fails_start λ _. emit failed done
registration me (raised e) = locked fails_start λ _. emit failed done

-- `start`, on the thread `me`.
unfoldable pub start : ℕ → Prog
unfolding registration
start me = locked begins_start λ w.
    if starts w
    then call none (register w.options.queue_name w.options.worker_id w.options.concurrency)
        (registration me)
    else done

abbrev pub executions : List (Str × ℕ) → List ℕ
executions [] = []
executions ((k, a) ∷ d) = a ∷ executions d

-- `for active in list(self._active_jobs.values()): self._abandon_job(active, …)`. The program of
-- `_abandon_job` ends early for a settled execution, and the loop goes on.
unfoldable pub abandon_jobs : List ℕ → Prog → Prog
unfolding abandon_job
abandon_jobs [] k = k
abandon_jobs (a ∷ xs) k = abandon_job a (codes "Worker shutdown timeout") (abandon_jobs xs k)

abbrev pub no_jobs : Worker → Bool
no_jobs w = elim w.active_jobs [ [] ↦ true | x ∷ d ↦ false ]

abbrev pub no_polls : Worker → Bool
no_polls w = w.poll_in_flight == 0

-- The end of `stop`, from the shutdown of the executor.
unfoldable pub report_stop : Prog
report_stop =
    locked ends λ _. emit Prog.stopped (locked clears_id λ _. locked signals_stopped λ _. done)

unfoldable pub finish_stop : Prog
finish_stop = locked shuts_executor λ _. locked drops_executor λ _. read λ w.
    if is_set w.worker_id
    then call none (deregister (or_empty w.worker_id)) (λ _. report_stop)
    else report_stop

-- `stop` after it has waited for the claim in flight: the drain, the executions that outlived it,
-- the acks in flight, and the worker's heartbeat.
unfoldable pub drain : Prog
unfolding abandon_jobs finish_stop
drain = until no_jobs closes_intake (
    read λ w.
      abandon_jobs (executions w.active_jobs)
        (until no_jobs keep (locked stops_beats λ _. locked cancels_beat λ _. finish_stop)))

-- `stop`, on the thread `me`.
unfoldable pub stop : ℕ → Prog
unfolding drain
stop me = locked begins_stop λ w.
    let waits =
      (locked signals_shutdown
        λ _. read λ v. if is_same me v.poll_thread_id then drain else until no_polls keep drain) in
    if is_running w.state then waits else done

-- The program of each task.
unfoldable pub body : (Exn → Str) → Task → Prog
unfolding run_handler send_heartbeat abandon_job send_worker_heartbeat start_round
body show (execute_handler a) = run_handler show a
body show (job_heartbeat t a) = timer t (send_heartbeat a)
body show (job_timeout t a) = timer t (abandon_job a (codes "Job timeout exceeded") done)
body show (worker_beat t) = timer t send_worker_heartbeat
body show (poll_round me) = start_round me
