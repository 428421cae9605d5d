-- ===== src/AsyncWorker/Intake.antt =====
-- src/spooled/worker/async_worker.py: `start()` with its polling, and `stop()`, as two tasks that
-- act on the worker, each from one await to the next. What becomes of a registered job is in
-- `AsyncWorker.Tasks`; here it is only among the active jobs until `_cleanup_job`.
pub mod Capacity
pub mod Late
pub mod Order
mod Examples
use spooled_sdk_python.Prelude.{
  ℕ, zero, suc, ◌+◌, ◌-◌, ◌==◌, ◌&&◌, not, Bool, true, false, Option, none, some, List, [], ◌∷◌,
  Str, is_set, length, if◌then◌else◌,
}
use spooled_sdk_python.Errors.{Exn, Result, ok, raised}
use spooled_sdk_python.Worker.{
  ClaimedJob, Options, WorkerState, idle, starting, running, stopping, stopped, error, is_running,
  is_stopping, is_idle, put_job, delete_job, find_job, is_same,
}
use spooled_sdk_python.Worker.Prog.{Request, register, deregister, claim, fail, Response, jobs}
use spooled_sdk_python.Worker.Settling.{or_empty}
use spooled_sdk_python.Worker.Jobs.{unstarted_claim_error}

-- Where `start()` awaits: not called; its registration; a claim, with the limit that it asked for;
-- the `fail` of a job that came too late, before the rest of the claim; the pause between two
-- polls; the end of `stop()`. Then it has returned or raised.
pub data Start : Type 0 where
  uncalled registering : Start
  claiming : (limit : ℕ) → Start
  releasing : (rest : List ClaimedJob) → Start
  resting holding returned failed : Start

-- Where `stop()` awaits: not called; the claim in flight; the running jobs; what it does once the
-- intake is closed; its deregistration; over; left
-- by the exception of a heartbeat task.
pub data Stop : Type 0 where
  unasked awaiting_claim draining settling deregistering finished crashed : Stop

-- `made` counts the executions that were registered; each is known by its number.
pub record Intake : Type 0 where
  pub options : Options
  pub handler : Bool
  pub state : WorkerState
  pub worker_id : Option Str
  pub registered_worker_id : Option Str
  pub active_jobs : List (Str × ℕ)
  pub made : ℕ
  pub intake_closed : Bool
  pub claim_inflight : Bool
  pub shutdown_event : Bool
  pub stopped_event : Bool
  pub start : Start
  pub stop : Stop
  pub sent : List Request

-- `AsyncSpooledWorker.__init__`, and `process` for the handler.
unfoldable pub new_intake : Options → Bool → Intake
new_intake o h = record {
  options = o;
  handler = h;
  state = idle;
  worker_id = none;
  registered_worker_id = none;
  active_jobs = [];
  made = 0;
  intake_closed = false;
  claim_inflight = false;
  shutdown_event = false;
  stopped_event = false;
  start = uncalled;
  stop = unasked;
  sent = [];
}

abbrev pub sends : Request → Intake → Intake
sends r w = record w { sent = r ∷ w.sent }

-- The call of `start()`, to the await of its registration; elsewhere it raises.
unfoldable pub call_start : Intake → Intake
call_start w =
    if is_idle w.state && w.handler
    then sends (register w.options.queue_name w.options.worker_id w.options.concurrency) (record w {
      state = starting;
      shutdown_event = false;
      stopped_event = false;
      intake_closed = false;
      claim_inflight = false;
      start = registering;
    })
    else w

-- `_poll`, to the await of its claim; where there is nothing to claim, `start()` pauses.
unfoldable pub begin_claim : ℕ → Intake → Intake
begin_claim zero w = record w { start = resting }
begin_claim (suc n) w =
    sends (claim w.options.queue_name (or_empty w.worker_id) (suc n) w.options.lease_duration)
      (record w { claim_inflight = true; start = claiming (suc n) })

unfoldable pub poll : Intake → Intake
poll w =
    if is_running w.state && is_set w.worker_id
    then begin_claim (w.options.concurrency - length w.active_jobs) w
    else record w { start = resting }

-- `_register_job`, where the intake is open.
unfoldable pub register_job : ClaimedJob → Intake → Intake
register_job j w = record w { active_jobs = put_job j.id w.made w.active_jobs; made = w.made + 1 }

-- `worker_id` of `_release_unstarted_job`.
unfoldable pub releasing_id : Intake → Option Str
releasing_id w = if is_set w.worker_id then w.worker_id else w.registered_worker_id

-- The loop of `_poll` over the jobs of a claim: an open intake starts each; a closed one fails
-- each, one await at a time, or passes over it where no id is known.
abbrev pub end_claim : Intake → Intake
end_claim w = record w { claim_inflight = false; start = resting }

unfoldable pub take_jobs : List ClaimedJob → Intake → Intake
take_jobs [] w = end_claim w
take_jobs (j ∷ js) w =
    let passed = take_jobs js w in
    let started = take_jobs js (register_job j w) in
    if not w.intake_closed
    then started
    else if is_set (releasing_id w)
    then sends (fail j.id (or_empty (releasing_id w)) j.lease_id unstarted_claim_error)
        (record w { start = releasing js })
    else passed

-- What `start()` does when the loop of polls is over.
unfoldable pub leave : Intake → Intake
leave w =
    if is_stopping w.state && not w.stopped_event
    then record w { start = holding }
    else record w { start = returned }

unfoldable pub poll_again : Intake → Intake
poll_again w = if is_running w.state then poll w else leave w

-- The answer to the registration; its failure leaves `start()`.
unfoldable pub registered_as : Str → Intake → Intake
registered_as id w =
    poll_again (record w { worker_id = some id; registered_worker_id = some id; state = running })

abbrev pub registration_failed : Intake → Intake
registration_failed w = record w { state = error; start = failed }

-- `stop()`, to its first await, and past the wait for the claim.
unfoldable pub call_stop : Intake → Intake
call_stop w =
    if is_running w.state
    then record w {
      state = stopping;
      shutdown_event = true;
      stop = (if w.claim_inflight then awaiting_claim else draining);
    }
    else w

-- Its end, and the deregistration before that.
abbrev pub finish_stop : Intake → Intake
finish_stop w = record w {
  state = stopped;
  worker_id = none;
  stopped_event = true;
  stop = finished;
}

unfoldable pub send_deregister : Intake → Intake
send_deregister w =
    if is_set w.worker_id
    then sends (deregister (or_empty w.worker_id)) (record w { stop = deregistering })
    else finish_stop w

pub data Step : Type 0 where
  start_called : Step
  registration_answered : Result Str → Step
  claim_answered : Result (List ClaimedJob) → Step
  release_answered : Step
  -- The pause is over by time, or by the shutdown event; the stopped event.
  pause_elapsed shutdown_seen stopped_seen : Step
  stop_called : Step
  -- The claim in flight has returned, or the deadline has passed; the drain is over, or the
  -- deadline has passed; every execution was abandoned; the deregistration is answered, in any way.
  claim_waited drain_ended jobs_settled deregistered : Step
  -- The heartbeat task of an execution had ended by an exception, which its `_cleanup_job` raises.
  abandon_raises : Step
  -- `_cleanup_job` of the execution with this number, for the job with this id.
  job_cleaned : (id : Str) → ℕ → Step

abbrev pub on_claim : Result (List ClaimedJob) → Intake → Intake
on_claim (ok js) w = take_jobs js w
on_claim (raised e) w = end_claim w

abbrev pub on_registration : Result Str → Intake → Intake
on_registration (ok id) w = registered_as id w
on_registration (raised e) w = registration_failed w

abbrev pub release_next : Start → Intake → Intake
release_next (releasing js) w = take_jobs js w
release_next _ w = w

abbrev pub is_uncalled : Start → Bool
is_uncalled uncalled = true
is_uncalled _ = false

abbrev pub is_registering : Start → Bool
is_registering registering = true
is_registering _ = false

abbrev pub is_claiming : Start → Bool
is_claiming (claiming n) = true
is_claiming _ = false

abbrev pub is_resting : Start → Bool
is_resting resting = true
is_resting _ = false

abbrev pub is_holding : Start → Bool
is_holding holding = true
is_holding _ = false

abbrev pub is_unasked : Stop → Bool
is_unasked unasked = true
is_unasked _ = false

abbrev pub is_awaiting_claim : Stop → Bool
is_awaiting_claim awaiting_claim = true
is_awaiting_claim _ = false

abbrev pub is_draining : Stop → Bool
is_draining draining = true
is_draining _ = false

abbrev pub is_settling : Stop → Bool
is_settling settling = true
is_settling _ = false

abbrev pub is_deregistering : Stop → Bool
is_deregistering deregistering = true
is_deregistering _ = false

unfoldable pub clean_job : Str → ℕ → Intake → Intake
clean_job id a w =
    if is_same a (find_job id w.active_jobs)
    then record w { active_jobs = delete_job id w.active_jobs }
    else w

-- A step that does not fit the place of its task changes nothing.
unfoldable pub step : Step → Intake → Intake
step start_called w = if is_uncalled w.start then call_start w else w
step (registration_answered r) w = if is_registering w.start then on_registration r w else w
step (claim_answered r) w = if is_claiming w.start then on_claim r w else w
step release_answered w = release_next w.start w
step pause_elapsed w = if is_resting w.start then poll_again w else w
step shutdown_seen w = if is_resting w.start && w.shutdown_event then leave w else w
step stopped_seen w =
    if is_holding w.start && w.stopped_event then record w { start = returned } else w
step stop_called w = if is_unasked w.stop then call_stop w else w
step claim_waited w = if is_awaiting_claim w.stop then record w { stop = draining } else w
step drain_ended w =
    if is_draining w.stop then record w { intake_closed = true; stop = settling } else w
step jobs_settled w = if is_settling w.stop then send_deregister w else w
step deregistered w = if is_deregistering w.stop then finish_stop w else w
step abandon_raises w =
    if is_settling w.stop then record w { stopped_event = true; stop = crashed } else w
step (job_cleaned id a) w = clean_job id a w

unfoldable pub run : List Step → Intake → Intake
run [] w = w
run (s ∷ rest) w = run rest (step s w)
