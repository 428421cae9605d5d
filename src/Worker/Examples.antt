-- ===== src/Worker/Examples.antt =====
-- src/spooled/worker/worker.py on concrete runs.
use spooled_sdk_python.Prelude.{◌≤◌, true, false, none, some, [], ◌∷◌, ◌++◌, Str, codes, ◌≡◌, refl}
use spooled_sdk_python.Prelude.Int.{pos}
use spooled_sdk_python.Json.{Value, str}
use spooled_sdk_python.Json
use spooled_sdk_python.Errors.{Exn, ok, raised, attribute_error}
use spooled_sdk_python.Worker.{
  ClaimedJob, ActiveJob, Worker, Options, WorkerState, running, stopping, live, is_settled, is_lost,
  owns, find_exec, find_job,
}
use spooled_sdk_python.Worker.Prog.{
  done, World, Schedule, registered, jobs, nothing, go, reply, outcome, deadline, run,
}
use spooled_sdk_python.Worker.Jobs.{process_job, handled}
use spooled_sdk_python.Worker.Loop.{stop, body}
use spooled_sdk_python.Worker.Acks.Sound.{bit, count_acks}
use spooled_sdk_python.Worker.Acks.Once.{launch, acks_once}
use spooled_sdk_python.Worker.Intake.{IsClosed, run-IsClosed}
use spooled_sdk_python.Worker.Handled.{ack, handled_acks}
use spooled_sdk_python.Worker.Locked.{settlement}

abbrev options : Options
options = record {
  queue_name = codes "mail";
  concurrency = 2;
  lease_duration = 30;
  worker_id = none;
}

abbrev show : Exn → Str
show e = codes "boom"

abbrev job : ClaimedJob
job = record {
  id = codes "j1";
  queue_name = codes "mail";
  payload = Json.null;
  retry_count = 0;
  max_retries = 3;
  timeout_seconds = pos 5;
  lease_id = some (codes "l1");
}

-- The worker registers and polls, a job arrives, and its handler is submitted.
abbrev submitted : Schedule
submitted =
    (0, go)
    ∷ (0, reply (ok (registered (codes "w1"))))
    ∷ (0, go)
    ∷ (0, go)
    ∷ (0, go)
    ∷ (0, go)
    ∷ (0, go)
    ∷ (0, go)
    ∷ (0, go)
    ∷ (1, go)
    ∷ (1, go)
    ∷ (1, reply (ok (jobs (job ∷ []))))
    ∷ (1, go)
    ∷ (1, go)
    ∷ (1, go)
    ∷ (1, go)
    ∷ (1, go)
    ∷ (1, go)
    ∷ (1, go)
    ∷ []

abbrev at : Schedule → World
at sched = run (body show) sched (launch options true 0 (1 ∷ []))

-- Then its handler returns, while `stop` waits and the timeout of the job fires.
abbrev acked : Schedule
acked =
    (2, go)
    ∷ (2, go)
    ∷ (2, go)
    ∷ (2, go)
    ∷ (2, go)
    ∷ (2, outcome (ok (str (codes "done"))))
    ∷ (2, go)
    ∷ (2, go)
    ∷ (3, deadline)
    ∷ (3, go)
    ∷ (3, go)
    ∷ (2, go)
    ∷ (2, reply (ok nothing))
    ∷ (2, go)
    ∷ (2, go)
    ∷ []

acks_once_example :
    let s = at (submitted ++ acked) in
    (count_acks 0 s.sent ≤ bit (is_settled 0 s.worker)) × (count_acks 0 s.sent ≤ 1)
acks_once_example = acks_once show options true 0 (1 ∷ []) (submitted ++ acked) 0

-- A worker on its way to stop, which still has one job.
abbrev active : ActiveJob
active = record {
  job = job;
  abort = false;
  heartbeat_timer = some 0;
  timeout_timer = none;
  settled = false;
  abandoned = false;
  lease_lost = false;
}

abbrev settled_active : ActiveJob
settled_active = record active { settled = true }

abbrev worker_with : ActiveJob → WorkerState → Worker
worker_with x st = record {
  options = options;
  state = st;
  worker_id = some (codes "w1");
  registered_worker_id = some (codes "w1");
  handler = true;
  active_jobs = (codes "j1", 0) ∷ [];
  execs = x ∷ [];
  timers = false ∷ false ∷ [];
  worker_heartbeat_timer = some 1;
  shutdown_event = true;
  executor = live;
  intake_closed = true;
  poll_in_flight = 1;
  poll_thread_id = some 0;
  abandoned_running = 0;
  worker_heartbeat_stop = false;
  stopped_event = false;
}

abbrev closing : Worker
closing = worker_with active stopping

abbrev late : World
late = record { worker = closing; threads = process_job job done done ∷ stop 1 ∷ []; sent = [] }

abbrev late_steps : Schedule
late_steps = (0, go) ∷ (1, go) ∷ (0, go) ∷ (0, reply (ok nothing)) ∷ (0, go) ∷ []

run-IsClosed_example : IsClosed 1 (run (body show) late_steps late).worker
run-IsClosed_example =
    run-IsClosed (body show) late_steps late 1 (record { intake = refl; busy = refl; taken = refl })

handled_acks_example :
    let s = run (body show) ((0, go) ∷ (0, go) ∷ (0, go) ∷ (0, reply (ok nothing)) ∷ []) (record {
      worker = worker_with active running;
      threads = handled show 0 (raised attribute_error) ∷ [];
      sent = [];
    }) in
    (s.sent ≡ (some 0, ack show (codes "w1") job (raised attribute_error)) ∷ [])
    × (is_settled 0 s.worker ≡ true)
handled_acks_example =
    let f : find_exec 0 (active ∷ []) ≡ some active = unfold find_exec in refl in
    let o : settlement 0 (worker_with active running) ≡ some (codes "w1") =
      unfold settlement is_lost is_settled owns find_exec find_job in refl in
    handled_acks (body show) show 0 (raised attribute_error) (ok nothing)
      (worker_with active running) f o
