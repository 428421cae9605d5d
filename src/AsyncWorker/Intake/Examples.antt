-- ===== src/AsyncWorker/Intake/Examples.antt =====
-- src/spooled/worker/async_worker.py: a worker of one slot that stops during a claim.
use spooled_sdk_python.Prelude.{true, none, List, [], ◌∷◌, codes, length, ◌≤◌, ◌+◌, ◌≡◌, refl}
use spooled_sdk_python.Prelude.Int.{pos}
use spooled_sdk_python.Json.{null}
use spooled_sdk_python.Errors.{ok}
use spooled_sdk_python.Worker.{ClaimedJob, Options}
use spooled_sdk_python.AsyncWorker.Intake.{
  Intake, Step, start_called, registration_answered, claim_answered, pause_elapsed, shutdown_seen,
  stop_called, claim_waited, drain_ended, jobs_settled, deregistered, new_intake, run, step,
  call_start, registered_as, poll_again, poll, begin_claim, take_jobs, register_job, releasing_id,
  leave, call_stop, send_deregister,
}
use spooled_sdk_python.AsyncWorker.Intake.Capacity.{all_keep_limit, pending, active_jobs_bounded}
use spooled_sdk_python.AsyncWorker.Intake.Late.{late_claim_released, drained, releases}
use spooled_sdk_python.AsyncWorker.Intake.Order.{start_returns_last, is_through}

abbrev job : ClaimedJob
job = record {
  id = codes "j";
  queue_name = codes "q";
  payload = null;
  retry_count = 0;
  max_retries = 3;
  timeout_seconds = pos 0;
  lease_id = none;
}

abbrev options : Options
options = record { queue_name = codes "q"; concurrency = 1; lease_duration = 30; worker_id = none }

abbrev up : List Step
up = start_called ∷ registration_answered (ok (codes "w")) ∷ []

abbrev claims : List Step
claims =
    start_called
    ∷ registration_answered (ok (codes "w"))
    ∷ claim_answered (ok (job ∷ []))
    ∷ pause_elapsed
    ∷ []

active_jobs_bounded_example :
    let w = run claims (new_intake options true) in
    length w.active_jobs + pending w.start ≤ w.options.concurrency
unfolding all_keep_limit new_intake step call_start registered_as poll_again poll begin_claim
    take_jobs register_job
active_jobs_bounded_example = active_jobs_bounded claims options true refl

-- `stop()` has given up waiting for the claim, and is over when the claim is answered.
abbrev closed : Intake
closed =
    run
      (start_called
        ∷ registration_answered (ok (codes "w"))
        ∷ stop_called
        ∷ claim_waited
        ∷ drain_ended
        ∷ jobs_settled
        ∷ deregistered
        ∷ [])
      (new_intake options true)

late_claim_released_example :
    run (claim_answered (ok (job ∷ [])) ∷ releases (job ∷ [])) closed
    ≡ drained (codes "w") (job ∷ []) closed
unfolding new_intake run step call_start registered_as poll_again poll begin_claim call_stop
    send_deregister releasing_id
late_claim_released_example = late_claim_released (job ∷ []) (codes "w") closed refl refl refl refl

abbrev ends : List Step
ends =
    start_called
    ∷ registration_answered (ok (codes "w"))
    ∷ stop_called
    ∷ claim_waited
    ∷ drain_ended
    ∷ jobs_settled
    ∷ deregistered
    ∷ claim_answered (ok [])
    ∷ shutdown_seen
    ∷ []

start_returns_last_example : is_through (run ends (new_intake options true)).stop ≡ true
unfolding new_intake run step call_start registered_as poll_again poll begin_claim call_stop
    send_deregister take_jobs leave
start_returns_last_example = start_returns_last ends options true refl
