-- ===== src/AsyncWorker.antt =====
-- src/spooled/worker/async_worker.py: one execution of a job by `AsyncSpooledWorker`, as the tasks
-- that act on it see it: its own task (`_process_job`), its heartbeat task, and `stop()`. A task
-- runs alone from one await to the next, and the lock `_active_jobs_lock` is never held across an
-- await, so each function here is what one task does between two awaits. `AsyncWorker.Tasks` has
-- the steps. `cancel()` of a task is a request, `process_cancel` and `heartbeat_cancel`: the task
-- gets its CancelledError when it next resumes.
pub mod Tasks
pub mod Change
pub mod Acks
pub mod Held
pub mod Dropped
pub mod Intake
mod Examples
use spooled_sdk_python.Prelude.{
  ℕ, ◌||◌, ltb, not, Bool, true, false, Option, none, some, List, [], ◌∷◌, Str, codes, is_set,
  if◌then◌else◌,
}
use spooled_sdk_python.Json.{Value}
use spooled_sdk_python.Errors.{Exn, Result, ok, raised, is_lease_expired}
use spooled_sdk_python.Worker.{ClaimedJob}
use spooled_sdk_python.Worker.Prog.{
  Request, complete, fail, Response, Event, failed, job_completed, job_failed, job_lease_lost,
}
use spooled_sdk_python.Worker.Settling.{coerce_fail_error, exn_is_conflict, already_completed}

-- A request that settles the job: `complete` with a result, `fail` with a text.
pub data Ack : Type 0 where
  completing : Value → Ack
  failing : Str → Ack

-- Where `_process_job` awaits: not yet begun; the handler; an ack of the `try` block, or one of an
-- `except` block, of `_execute_handler`; the heartbeat task, in `_cleanup_job`; over.
pub data Place : Type 0 where
  unstarted handling : Place
  acking : (in_except : Bool) → Ack → Place
  joining over : Place

-- The heartbeat task: not created; in its sleep; awaiting an answer; ended; ended by an exception.
pub data Beat : Type 0 where
  absent sleeping beating ended crashed : Beat

-- What `stop()` does about this execution: nothing yet; `_abandon_job` awaits the ack, then the
-- heartbeat task; it is through; the exception of the heartbeat task left `stop()`.
pub data Stopping : Type 0 where
  idle : Stopping
  abandoning : Ack → Stopping
  awaiting through broken : Stopping

-- `ActiveJob`, with what the worker holds about it: `owner` is whether `_active_jobs` maps the id
-- of the job to this execution. `sent` and `events` are what was sent and emitted, last first.
pub record Execution : Type 0 where
  pub job : ClaimedJob
  pub lease_duration : ℕ
  pub worker_id : Option Str
  pub owner : Bool
  pub settled : Bool
  pub lease_lost : Bool
  pub abort : Bool
  pub cancel_reason : Option Str
  pub process : Place
  pub process_cancel : Bool
  pub heartbeat : Beat
  pub heartbeat_cancel : Bool
  pub stopping : Stopping
  pub sent : List Request
  pub events : List Event

-- Who runs a method on the execution: its task, in the `try` block or in an `except` block;
-- `stop()`.
pub data Caller : Type 0 where
  in_try in_except in_stop : Caller

abbrev pub is_over : Place → Bool
is_over over = true
is_over _ = false

abbrev pub is_done : Beat → Bool
is_done ended = true
is_done crashed = true
is_done _ = false

-- A task that does not exist is not there to be cancelled.
abbrev pub is_live : Beat → Bool
is_live sleeping = true
is_live beating = true
is_live _ = false

abbrev pub emits : Event → Execution → Execution
emits e x = record x { events = e ∷ x.events }

-- `_claim_settlement`.
unfoldable pub claim_settlement : Execution → Option Str × Execution
claim_settlement x =
    if x.lease_lost || (x.settled || not x.owner)
    then (none, x)
    else if is_set x.worker_id
    then (x.worker_id, record x { settled = true })
    else (none, x)

-- `_cleanup_job`, to its await of the heartbeat task; a task that is done does not suspend it.
abbrev pub delist : Execution → Execution
delist x = record x { owner = false }

abbrev pub after_join : Caller → Beat → Execution → Execution
after_join in_stop crashed x = record x { stopping = broken }
after_join in_stop _ x = record x { stopping = through }
after_join _ _ x = record x { process = over }

abbrev pub awaits : Caller → Execution → Execution
awaits in_stop x = record x { stopping = awaiting }
awaits _ x = record x { process = joining }

unfoldable pub cleanup_job : Caller → Execution → Execution
cleanup_job who x =
    if is_live x.heartbeat
    then awaits who (record (delist x) { heartbeat_cancel = true })
    else after_join who x.heartbeat (delist x)

-- `_lose_lease`. The first argument says whose task runs it: it does not cancel itself.
pub data Current : Type 0 where
  of_process of_heartbeat of_stop : Current

abbrev pub is_of_process : Current → Bool
is_of_process of_process = true
is_of_process _ = false

abbrev pub is_of_heartbeat : Current → Bool
is_of_heartbeat of_heartbeat = true
is_of_heartbeat _ = false

abbrev pub current : Caller → Current
current in_stop = of_stop
current _ = of_process

unfoldable pub lose_lease : Current → Str → Execution → Execution
lose_lease t operation x = if x.lease_lost then x else record x {
  lease_lost = true;
  abort = true;
  events = job_lease_lost x.job.id operation ∷ x.events;
  heartbeat_cancel =
      (if is_of_heartbeat t || not (is_live x.heartbeat) then x.heartbeat_cancel else true);
  process_cancel = (if is_of_process t || is_over x.process then x.process_cancel else true);
}

-- The request of an ack, with the id that the settlement was claimed with.
unfoldable pub ack_request : Ack → Str → ClaimedJob → Request
ack_request (completing v) w j = complete j.id w j.lease_id v
ack_request (failing text) w j = fail j.id w j.lease_id (coerce_fail_error text)

-- `self._emit` of an ack that arrived.
unfoldable pub acked : Ack → ClaimedJob → Event
acked (completing v) j = job_completed j.id v
acked (failing text) j = job_failed j.id (coerce_fail_error text) (ltb j.retry_count j.max_retries)

abbrev pub sends : Caller → Ack → Execution → Execution
sends in_try a x = record x { process = acking false a }
sends in_except a x = record x { process = acking true a }
sends in_stop a x = record x { stopping = abandoning a }

-- `_complete_job` and `_fail_job`, or `_send_fail` after `_abandon_job` claimed the settlement: up
-- to the await of the answer, or through `_cleanup_job`, where there is nothing to send.
unfoldable pub send_ack : Caller → Ack → Str → Execution → Execution
send_ack who a w x =
    if x.lease_lost
    then cleanup_job who x
    else sends who a (record x { sent = ack_request a w x.job ∷ x.sent })

abbrev pub with_claim : Caller → Ack → Option Str × Execution → Execution
with_claim who a (none, y) = cleanup_job who y
with_claim who a (some w, y) = send_ack who a w y

unfoldable pub ack_job : Caller → Ack → Execution → Execution
ack_job who a x = with_claim who a (claim_settlement x)

abbrev pub operation : Ack → Str
operation (completing v) = codes "complete"
operation (failing text) = codes "fail"

-- A 409 that says nothing of the lease: the replay of a `complete` that had arrived is a success.
abbrev pub on_conflict : Ack → Exn → Execution → Execution
on_conflict (completing v) e x =
    if already_completed e then emits (acked (completing v) x.job) x else emits failed x
on_conflict (failing text) e x = emits failed x

-- What `is_lease_expired` says, where it does not raise.
abbrev pub on_expired : Result Bool → Execution → Execution → Execution → Execution
on_expired (ok true) lost kept failure = lost
on_expired (ok false) lost kept failure = kept
on_expired (raised x) lost kept failure = failure

unfoldable pub ack_failed : Current → Ack → Exn → Execution → Execution
ack_failed t a e x =
    on_expired (is_lease_expired e) (lose_lease t (operation a) x) (on_conflict a e x)
      (emits failed x)

-- The answer to an ack, and the `_cleanup_job` that follows.
unfoldable pub ack_answered : Caller → Ack → Result Response → Execution → Execution
ack_answered who a (ok r) x = cleanup_job who (emits (acked a x.job) x)
ack_answered who a (raised e) x =
    cleanup_job who (if exn_is_conflict e then ack_failed (current who) a e x else emits failed x)

-- `_register_job`, with the task that `_poll` creates for it.
unfoldable pub register_job : ClaimedJob → ℕ → Str → Execution
register_job j n w = record {
  job = j;
  lease_duration = n;
  worker_id = some w;
  owner = true;
  settled = false;
  lease_lost = false;
  abort = false;
  cancel_reason = none;
  process = unstarted;
  process_cancel = false;
  heartbeat = absent;
  heartbeat_cancel = false;
  stopping = idle;
  sent = [];
  events = [];
}
