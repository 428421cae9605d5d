-- ===== src/Worker.antt =====
-- src/spooled/worker/worker.py: the threaded worker. `Worker` is the object; an execution (an
-- `ActiveJob` object) is known by its place in `execs`, and a `threading.Timer` by its place in
-- `timers`, which says whether it was cancelled. The children: `Worker.Locked`, what a method does
-- while it holds the lock; `Worker.Section`, those sections by name; `Worker.Prog`, programs of such
-- steps, API calls and events, and how threads that run them interleave; `Worker.Settling`,
-- `Worker.Jobs` and `Worker.Loop`, the methods as programs.
pub mod Locked
pub mod Section
pub mod Prog
pub mod Settling
pub mod Jobs
pub mod Loop
pub mod Acks
pub mod Runs
pub mod Intake
pub mod Slots
pub mod Leak
pub mod Handled
mod Examples
use spooled_sdk_python.Prelude.{
  ℕ, zero, suc, ◌+◌, ◌==◌, Bool, true, false, Option, none, some, List, [], ◌∷◌, Str, str_eq,
  if◌then◌else◌,
}
use spooled_sdk_python.Prelude.Int.{ℤ}
use spooled_sdk_python.Json.{Value}

-- `ClaimedJob` of src/spooled/types/jobs.py, less the expiry date, which the worker does not read.
pub record ClaimedJob : Type 0 where
  pub id : Str
  pub queue_name : Str
  pub payload : Value
  pub retry_count : ℕ
  pub max_retries : ℕ
  pub timeout_seconds : ℤ
  pub lease_id : Option Str

-- `abort` is whether the abort event is set.
pub record ActiveJob : Type 0 where
  pub job : ClaimedJob
  pub abort : Bool
  pub heartbeat_timer : Option ℕ
  pub timeout_timer : Option ℕ
  pub settled : Bool
  pub abandoned : Bool
  pub lease_lost : Bool

pub data WorkerState : Type 0 where
  idle starting running stopping stopped error : WorkerState

-- No executor, one that takes jobs, or one that was shut down.
pub data Executor : Type 0 where
  missing live shut : Executor

pub record Options : Type 0 where
  pub queue_name : Str
  pub concurrency : ℕ
  pub lease_duration : ℕ
  pub worker_id : Option Str

pub record Worker : Type 0 where
  pub options : Options
  pub state : WorkerState
  pub worker_id : Option Str
  pub registered_worker_id : Option Str
  pub handler : Bool
  -- The dict `_active_jobs`, from job ids to executions.
  pub active_jobs : List (Str × ℕ)
  pub execs : List ActiveJob
  pub timers : List Bool
  pub worker_heartbeat_timer : Option ℕ
  pub shutdown_event : Bool
  pub executor : Executor
  pub intake_closed : Bool
  pub poll_in_flight : ℕ
  pub poll_thread_id : Option ℕ
  pub abandoned_running : ℕ
  pub worker_heartbeat_stop : Bool
  pub stopped_event : Bool

-- `SpooledWorker.__init__`, and `process` for the handler.
unfoldable pub new_worker : Options → Bool → Worker
new_worker o h = record {
  options = o;
  state = idle;
  worker_id = none;
  registered_worker_id = none;
  handler = h;
  active_jobs = [];
  execs = [];
  timers = [];
  worker_heartbeat_timer = none;
  shutdown_event = false;
  executor = missing;
  intake_closed = false;
  poll_in_flight = 0;
  poll_thread_id = none;
  abandoned_running = 0;
  worker_heartbeat_stop = false;
  stopped_event = false;
}

unfoldable pub new_active_job : ClaimedJob → ActiveJob
new_active_job j = record {
  job = j;
  abort = false;
  heartbeat_timer = none;
  timeout_timer = none;
  settled = false;
  abandoned = false;
  lease_lost = false;
}

-- The executions as a store.
unfoldable pub find_exec : ℕ → List ActiveJob → Option ActiveJob
find_exec a [] = none
find_exec zero (x ∷ xs) = some x
find_exec (suc a) (x ∷ xs) = find_exec a xs

unfoldable pub modify_exec : ℕ → (ActiveJob → ActiveJob) → List ActiveJob → List ActiveJob
modify_exec a f [] = []
modify_exec zero f (x ∷ xs) = f x ∷ xs
modify_exec (suc a) f (x ∷ xs) = x ∷ modify_exec a f xs

-- The dict of active jobs: `d.get(k)`, `d[k] = a` and `del d[k]`.
unfoldable pub find_job : Str → List (Str × ℕ) → Option ℕ
find_job k [] = none
find_job k ((j, a) ∷ d) = if str_eq j k then some a else find_job k d

unfoldable pub put_job : Str → ℕ → List (Str × ℕ) → List (Str × ℕ)
put_job k b [] = (k, b) ∷ []
put_job k b ((j, a) ∷ d) = if str_eq j k then (j, b) ∷ d else (j, a) ∷ put_job k b d

unfoldable pub delete_job : Str → List (Str × ℕ) → List (Str × ℕ)
delete_job k [] = []
delete_job k ((j, a) ∷ d) = if str_eq j k then d else (j, a) ∷ delete_job k d

-- `timer.cancel()`, for the place of a timer.
unfoldable pub cancel_at : ℕ → List Bool → List Bool
cancel_at t [] = []
cancel_at zero (x ∷ xs) = true ∷ xs
cancel_at (suc t) (x ∷ xs) = x ∷ cancel_at t xs

abbrev pub cancel : Option ℕ → List Bool → List Bool
cancel none ts = ts
cancel (some t) ts = cancel_at t ts

unfoldable pub is_cancelled : ℕ → List Bool → Bool
is_cancelled t [] = true
is_cancelled zero (x ∷ xs) = x
is_cancelled (suc t) (x ∷ xs) = is_cancelled t xs

abbrev pub is_running : WorkerState → Bool
is_running running = true
is_running _ = false

abbrev pub is_idle : WorkerState → Bool
is_idle idle = true
is_idle _ = false

abbrev pub is_stopping : WorkerState → Bool
is_stopping stopping = true
is_stopping _ = false

-- A flag of an execution.
abbrev pub flag : (ActiveJob → Bool) → Option ActiveJob → Bool
flag f none = false
flag f (some x) = f x

unfoldable pub is_settled : ℕ → Worker → Bool
is_settled a w = flag (λ x. x.settled) (find_exec a w.execs)

unfoldable pub is_lost : ℕ → Worker → Bool
is_lost a w = flag (λ x. x.lease_lost) (find_exec a w.execs)

-- `self._active_jobs.get(job.id) is active`.
abbrev pub is_same : ℕ → Option ℕ → Bool
is_same a none = false
is_same a (some b) = a == b

unfoldable pub owns : ℕ → Worker → Bool
owns a w = flag (λ x. is_same a (find_job x.job.id w.active_jobs)) (find_exec a w.execs)
