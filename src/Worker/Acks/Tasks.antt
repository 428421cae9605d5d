-- ===== src/Worker/Acks/Tasks.antt =====
-- src/spooled/worker/worker.py: `start`, `stop` and the tasks keep the discipline of acks.
use spooled_sdk_python.Prelude.{ℕ, ◌&&◌, not, List, [], ◌∷◌, Str, refl, is_set}
use spooled_sdk_python.Errors.{Exn, Result, ok, raised}
use spooled_sdk_python.Worker.{ClaimedJob, is_running, is_stopping, is_same}
use spooled_sdk_python.Worker.Locked.{polls}
use spooled_sdk_python.Worker.Section.{starts}
use spooled_sdk_python.Worker.Prog.{
  Prog, done, Response, Task, execute_handler, job_heartbeat, job_timeout, worker_beat, poll_round,
  nothing, registered, jobs,
}
use spooled_sdk_python.Worker.Loop.{
  process_jobs, claimed, poll, finish_start, start_round, schedule_worker_heartbeat, error_event,
  beat_sent, send_worker_heartbeat, registration, start, executions, abandon_jobs, report_stop,
  finish_stop, drain, stop, body,
}
use spooled_sdk_python.Worker.Acks.Rules.{
  Always, locked-Always, read-Always, done-Always, emit-Always, spawn-Always, timer-Always,
  until-Always, call-Always, if-Always,
}
use spooled_sdk_python.Worker.Acks.Methods.{
  abandon_job-Always, send_heartbeat-Always, run_handler-Always, process_job-Always,
}

module _ (a : ℕ) where
  process_jobs-Always :
      (js : List ClaimedJob) (k p : Prog) → Always a k → Always a p → Always a (process_jobs js k p)
  unfolding process_jobs
  process_jobs-Always [] k p s t = s
  process_jobs-Always (j ∷ js) k p s t =
      process_job-Always a j _ p (process_jobs-Always js k p s t) t

  claimed-Always : (k : Prog) (r : Result Response) → Always a k → Always a (claimed k r)
  unfolding claimed
  claimed-Always k (ok (jobs js)) s = process_jobs-Always js k _ s (emit-Always a _ _ s)
  claimed-Always k (ok nothing) s = emit-Always a _ _ s
  claimed-Always k (ok (registered id)) s = emit-Always a _ _ s
  claimed-Always k (raised e) s = emit-Always a _ _ s

  poll-Always : (me : ℕ) (k : Prog) → Always a k → Always a (poll me k)
  unfolding poll
  poll-Always me k s = locked-Always a _ _ tt λ w.
      if-Always a (polls w) _ _
        (call-Always a _ _ _ refl λ r. claimed-Always _ r (locked-Always a _ _ tt λ v. s)) s

  finish_start-Always : Always a finish_start
  unfolding finish_start
  finish_start-Always = read-Always a _ λ w.
      if-Always a (is_stopping w.state) _ _ (until-Always a _ _ _ tt (done-Always a))
        (done-Always a)

  start_round-Always : (me : ℕ) → Always a (start_round me)
  unfolding start_round
  start_round-Always me = read-Always a _ λ w.
      if-Always a (is_running w.state && not w.shutdown_event) _ _
        (poll-Always me _ (spawn-Always a _ _ (done-Always a))) finish_start-Always

  schedule_worker_heartbeat-Always :
      (k : Prog) → Always a k → Always a (schedule_worker_heartbeat k)
  unfolding schedule_worker_heartbeat
  schedule_worker_heartbeat-Always k s = locked-Always a _ _ tt λ w. spawn-Always a _ _ s

  error_event-Always : (r : Result Response) (k : Prog) → Always a k → Always a (error_event r k)
  error_event-Always (ok x) k s = s
  error_event-Always (raised e) k s = emit-Always a _ _ s

  beat_sent-Always : (r : Result Response) → Always a (beat_sent r)
  unfolding beat_sent
  beat_sent-Always r = error_event-Always r _ (
      read-Always a _ λ w.
        if-Always a w.worker_heartbeat_stop _ _ (done-Always a)
          (schedule_worker_heartbeat-Always done (done-Always a)))

  send_worker_heartbeat-Always : Always a send_worker_heartbeat
  unfolding send_worker_heartbeat
  send_worker_heartbeat-Always = read-Always a _ λ w.
      if-Always a (not w.worker_heartbeat_stop && is_set w.worker_id) _ _
        (call-Always a _ _ _ refl beat_sent-Always) (done-Always a)

  registration-Always : (me : ℕ) (r : Result Response) → Always a (registration me r)
  unfolding registration
  registration-Always me (ok (registered id)) = locked-Always a _ _ tt λ _.
      locked-Always a _ _ tt λ _.
        schedule_worker_heartbeat-Always _
          (locked-Always a _ _ tt λ _. emit-Always a _ _ (spawn-Always a _ _ (done-Always a)))
  registration-Always me (ok nothing) =
      locked-Always a _ _ tt λ _. emit-Always a _ _ (done-Always a)
  registration-Always me (ok (jobs js)) =
      locked-Always a _ _ tt λ _. emit-Always a _ _ (done-Always a)
  registration-Always me (raised e) = locked-Always a _ _ tt λ _. emit-Always a _ _ (done-Always a)

  pub start-Always : (me : ℕ) → Always a (start me)
  unfolding start
  start-Always me = locked-Always a _ _ tt λ w.
      if-Always a (starts w) _ _ (call-Always a _ _ _ refl (registration-Always me)) (done-Always a)

  abandon_jobs-Always : (xs : List ℕ) (k : Prog) → Always a k → Always a (abandon_jobs xs k)
  unfolding abandon_jobs
  abandon_jobs-Always [] k s = s
  abandon_jobs-Always (b ∷ xs) k s = abandon_job-Always a b _ _ (abandon_jobs-Always xs k s)

  report_stop-Always : Always a report_stop
  unfolding report_stop
  report_stop-Always =
      locked-Always a _ _ tt λ _.
        emit-Always a _ _ (locked-Always a _ _ tt λ _. locked-Always a _ _ tt λ _. done-Always a)

  finish_stop-Always : Always a finish_stop
  unfolding finish_stop
  finish_stop-Always = locked-Always a _ _ tt λ _. locked-Always a _ _ tt λ _. read-Always a _ λ w.
      if-Always a (is_set w.worker_id) _ _ (call-Always a _ _ _ refl (λ _. report_stop-Always))
        report_stop-Always

  drain-Always : Always a drain
  unfolding drain
  drain-Always = until-Always a _ _ _ tt (
      read-Always a _ λ w. abandon_jobs-Always (executions w.active_jobs) _ (
        until-Always a _ _ _ tt
          (locked-Always a _ _ tt λ _. locked-Always a _ _ tt λ _. finish_stop-Always)))

  pub stop-Always : (me : ℕ) → Always a (stop me)
  unfolding stop
  stop-Always me = locked-Always a _ _ tt λ w.
      if-Always a (is_running w.state) _ _
        (locked-Always a _ _ tt λ _. read-Always a _ λ v.
          if-Always a (is_same me v.poll_thread_id) _ _ drain-Always
            (until-Always a _ _ _ tt drain-Always))
        (done-Always a)

  pub body-Always : (show : Exn → Str) (t : Task) → Always a (body show t)
  unfolding body
  body-Always show (execute_handler b) = run_handler-Always a show b
  body-Always show (job_heartbeat t b) = timer-Always a _ _ (send_heartbeat-Always a b)
  body-Always show (job_timeout t b) =
      timer-Always a _ _ (abandon_job-Always a b _ done (done-Always a))
  body-Always show (worker_beat t) = timer-Always a _ _ send_worker_heartbeat-Always
  body-Always show (poll_round me) = start_round-Always me
