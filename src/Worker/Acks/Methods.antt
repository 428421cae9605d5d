-- ===== src/Worker/Acks/Methods.antt =====
-- src/spooled/worker/worker.py: every method, and so every task, keeps the discipline of acks.
use spooled_sdk_python.Prelude.{ℕ, ◌&&◌, Str, refl, arith, is_set}
use spooled_sdk_python.Json.{Value}
use spooled_sdk_python.Errors.{Exn, Result, ok, raised, is_lease_expired}
use spooled_sdk_python.Worker.{
  ClaimedJob, Executor, missing, live, shut, find_exec, is_settled, is_lost, owns,
}
use spooled_sdk_python.Worker.Locked.{beats_on}
use spooled_sdk_python.Worker.Prog.{Prog, done, Response}
use spooled_sdk_python.Worker.Settling.{
  lose_lease, completed, complete_job, send_failed, send_fail, fail_job, abandon_job,
  exn_is_conflict, already_completed,
}
use spooled_sdk_python.Worker.Jobs.{
  released, release_unstarted_job, releasing_id, schedule_job_heartbeat, next_heartbeat,
  heartbeat_sent, send_heartbeat, start_job_timeout, handled, run_handler, submit_to, process_job,
  is_missing,
}
use spooled_sdk_python.Worker.Acks.Rules.{
  Always, Rightful, locked-Always, read-Always, done-Always, emit-Always, spawn-Always,
  handle-Always, call-Always, if-Always, with_exec-Always, with_job-Always, on_lease-Always,
  call-Rightful, read-Rightful, if-Rightful, Always-Rightful, with_job-Rightful,
  claim_settlement-Always,
}

module _ (a : ℕ) where
  lose_lease-Always : (b : ℕ) (o : Str) (k : Prog) → Always a k → Always a (lose_lease b o k)
  unfolding lose_lease
  lose_lease-Always b o k s = locked-Always a _ _ tt λ w. if-Always a (is_lost b w) _ _ s (
      locked-Always a _ _ tt
        λ v. with_exec-Always a (find_exec b v.execs) _ _ (λ j. emit-Always a _ _ s) s)

  completed-Always :
      (b : ℕ) (j : ClaimedJob) (v : Value) (k : Prog) (r : Result Response)
      → Always a k
      → Always a (completed b j v k r)
  unfolding completed
  completed-Always b j v k (ok x) s = emit-Always a _ _ s
  completed-Always b j v k (raised e) s =
      if-Always a (exn_is_conflict e) _ _
        (on_lease-Always a (is_lease_expired e) _ _ _ (lose_lease-Always b _ k s)
          (if-Always a (already_completed e) _ _ (emit-Always a _ _ s) (emit-Always a _ _ s))
          (emit-Always a _ _ s))
        (emit-Always a _ _ s)

  complete_job-Always : (b : ℕ) (v : Value) (k : Prog) → Always a k → Always a (complete_job b v k)
  unfolding complete_job
  complete_job-Always b v k s =
      with_job-Always a b _ _
        (λ j. claim_settlement-Always a b _ _ s λ id. read-Rightful a b _ λ w.
          if-Rightful a b (is_lost b w) _ _ (Always-Rightful a b _ s)
            (call-Rightful a b _ _ (λ r. completed-Always b j v k r s)))
        s

  send_failed-Always :
      (b : ℕ) (j : ClaimedJob) (m : Str) (k : Prog) (r : Result Response)
      → Always a k
      → Always a (send_failed b j m k r)
  unfolding send_failed
  send_failed-Always b j m k (ok x) s = emit-Always a _ _ s
  send_failed-Always b j m k (raised e) s =
      if-Always a (exn_is_conflict e) _ _
        (on_lease-Always a (is_lease_expired e) _ _ _ (lose_lease-Always b _ k s)
          (emit-Always a _ _ s) (emit-Always a _ _ s))
        (emit-Always a _ _ s)

  send_fail-Rightful :
      (b : ℕ) (id m : Str) (k : Prog) → Always a k → Rightful a b (send_fail b id m k)
  unfolding send_fail
  send_fail-Rightful b id m k s =
      with_job-Rightful a b _ _
        (λ j. read-Rightful a b _ λ w.
          if-Rightful a b (is_lost b w) _ _ (Always-Rightful a b _ s)
            (call-Rightful a b _ _ (λ r. send_failed-Always b j _ k r s)))
        s

  fail_job-Always : (b : ℕ) (m : Str) (k : Prog) → Always a k → Always a (fail_job b m k)
  unfolding fail_job
  fail_job-Always b m k s = claim_settlement-Always a b _ _ s λ id. send_fail-Rightful b id m k s

  pub abandon_job-Always : (b : ℕ) (m : Str) (k : Prog) → Always a k → Always a (abandon_job b m k)
  unfolding abandon_job
  abandon_job-Always b m k s = locked-Always a _ _ tt λ v.
      claim_settlement-Always a b _ _ s
        λ id. send_fail-Rightful b id m _ (locked-Always a _ _ tt λ w. s)

  released-Always :
      (j : ClaimedJob) (k : Prog) (r : Result Response) → Always a k → Always a (released j k r)
  unfolding released
  released-Always j k (ok x) s = emit-Always a _ _ s
  released-Always j k (raised e) s = emit-Always a _ _ s

  release_unstarted_job-Always :
      (j : ClaimedJob) (k : Prog) → Always a k → Always a (release_unstarted_job j k)
  unfolding release_unstarted_job
  release_unstarted_job-Always j k s = read-Always a _ λ w.
      if-Always a (is_set (releasing_id w)) _ _
        (call-Always a _ _ _ refl (λ r. released-Always j k r s)) s

  schedule_job_heartbeat-Always :
      (b : ℕ) (k : Prog) → Always a k → Always a (schedule_job_heartbeat b k)
  unfolding schedule_job_heartbeat
  schedule_job_heartbeat-Always b k s =
      locked-Always a _ _ tt λ w. if-Always a (owns b w) _ _ (spawn-Always a _ _ s) s

  next_heartbeat-Always : (b : ℕ) → Always a (next_heartbeat b)
  unfolding next_heartbeat
  next_heartbeat-Always b =
      locked-Always a _ _ tt
        λ w. if-Always a (beats_on b w) _ _ (spawn-Always a _ _ (done-Always a)) (done-Always a)

  heartbeat_sent-Always : (b : ℕ) (r : Result Response) → Always a (heartbeat_sent b r)
  unfolding heartbeat_sent
  heartbeat_sent-Always b (ok x) = next_heartbeat-Always b
  heartbeat_sent-Always b (raised e) =
      on_lease-Always a (is_lease_expired e) _ _ _ (lose_lease-Always b _ done (done-Always a))
        (emit-Always a _ _ (next_heartbeat-Always b)) (done-Always a)

  pub send_heartbeat-Always : (b : ℕ) → Always a (send_heartbeat b)
  unfolding send_heartbeat
  send_heartbeat-Always b =
      with_job-Always a b _ _
        (λ j. read-Always a _ λ w.
          if-Always a (beats_on b w && is_set w.worker_id) _ _
            (call-Always a _ _ _ (ground arith) (heartbeat_sent-Always b)) (done-Always a))
        (done-Always a)

  start_job_timeout-Always : (b : ℕ) (k : Prog) → Always a k → Always a (start_job_timeout b k)
  unfolding start_job_timeout
  start_job_timeout-Always b k s =
      with_job-Always a b _ _
        (λ j.
          if-Always a _ _ _
            (locked-Always a _ _ tt λ w. if-Always a (is_settled b w) _ _ s (spawn-Always a _ _ s))
            s)
        s

  handled-Always : (show : Exn → Str) (b : ℕ) (r : Result Value) → Always a (handled show b r)
  unfolding handled
  handled-Always show b (ok v) =
      complete_job-Always b v _ (locked-Always a _ _ tt λ w. done-Always a)
  handled-Always show b (raised e) =
      fail_job-Always b _ _ (locked-Always a _ _ tt λ w. done-Always a)

  pub run_handler-Always : (show : Exn → Str) (b : ℕ) → Always a (run_handler show b)
  unfolding run_handler
  run_handler-Always show b =
      with_job-Always a b _ _
        (λ j.
          emit-Always a _ _
            (start_job_timeout-Always b _ (handle-Always a _ _ (handled-Always show b))))
        (done-Always a)

  submit_to-Always :
      (b : ℕ) (x : Executor) (k p : Prog) → Always a k → Always a p → Always a (submit_to b x k p)
  submit_to-Always b live k p s t = spawn-Always a _ _ s
  submit_to-Always b shut k p s t = locked-Always a _ _ tt λ w. s
  submit_to-Always b missing k p s t = t

  pub process_job-Always :
      (j : ClaimedJob) (k p : Prog) → Always a k → Always a p → Always a (process_job j k p)
  unfolding process_job
  process_job-Always j k p s t = locked-Always a _ _ tt λ w.
      if-Always a w.intake_closed _ _ (release_unstarted_job-Always j k s) (
        emit-Always a _ _ (
          schedule_job_heartbeat-Always _ _ (
            read-Always a _ λ u.
              if-Always a (is_missing u.executor) _ _ s
                (read-Always a _ λ v. submit_to-Always _ v.executor k p s t))))
