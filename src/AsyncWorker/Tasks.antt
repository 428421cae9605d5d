-- ===== src/AsyncWorker/Tasks.antt =====
-- src/spooled/worker/async_worker.py: the steps of the tasks that act on one execution, each from
-- one await to the next. A step that does not fit the place of its task changes nothing, so every
-- list of steps is an interleaving. Between two steps of a task that in the code may be one, others
-- may come.
use spooled_sdk_python.Prelude.{
  ltb, ◌||◌, ◌&&◌, not, Bool, true, false, Option, none, some, List, [], ◌∷◌, Str, codes, is_set,
  if◌then◌else◌,
}
use spooled_sdk_python.Prelude.Int.{ℤ, pos, negsuc}
use spooled_sdk_python.Json.{Value}
use spooled_sdk_python.Errors.{Exn, Result, ok, raised, is_lease_expired}
use spooled_sdk_python.Worker.Prog.{heartbeat, Response, failed, job_started}
use spooled_sdk_python.Worker.Settling.{or_empty}
use spooled_sdk_python.AsyncWorker.{
  Ack, completing, failing, Place, unstarted, handling, acking, joining, over, Beat, sleeping,
  beating, ended, crashed, Stopping, idle, abandoning, awaiting, Execution, in_try, in_except,
  in_stop, is_over, is_done, is_live, emits, after_join, cleanup_job, of_heartbeat, lose_lease,
  on_expired, ack_job, ack_answered,
}

pub data Step : Type 0 where
  -- The task of the execution: it begins; the handler returns, or raises; the CancelledError that
  -- was requested leaves the handler, or the handler swallows it; a CancelledError of the handler's
  -- own; the job's timeout elapses; an ack is answered; the heartbeat task has been joined.
  process_runs : Step
  handler_returns : Value → Step
  handler_raises : (text : Str) → Step
  handler_unwinds handler_swallows handler_cancels : Step
  timeout_elapses : Step
  process_answered : Result Response → Step
  process_joined : Step
  -- The heartbeat task: its sleep is over; it is answered; its CancelledError ends it.
  heartbeat_wakes : Step
  heartbeat_answered : Result Response → Step
  heartbeat_unwinds : Step
  -- `stop()` after the drain: it signals the execution; `_abandon_job`; the answer to that; the
  -- join.
  stop_signals stop_abandons : Step
  stop_answered : Result Response → Step
  stop_joined : Step
  -- A newer claim of the same job takes the place in `_active_jobs`; `stop()` clears the worker's
  -- id at its end; somebody else, as the event loop at its end, cancels the task.
  replaced unregistered process_cancelled : Step

-- `seconds and seconds > 0`.
unfoldable pub is_timed : ℤ → Bool
is_timed (pos n) = ltb 0 n
is_timed (negsuc n) = false

-- `_process_job`, to the await of the handler.
unfoldable pub process_job : Execution → Execution
process_job x = if x.process_cancel then record x { process = over } else record x {
  process = handling;
  heartbeat = sleeping;
  events = job_started x.job.id ∷ x.events;
}

-- `except asyncio.CancelledError` of `_execute_handler`.
abbrev pub on_reason : Option Str → Execution → Execution
on_reason none x = cleanup_job in_try x
on_reason (some reason) x = ack_job in_except (failing reason) x

unfoldable pub on_cancelled : Execution → Execution
on_cancelled x =
    let y = record x { process_cancel = false } in
    if y.lease_lost then cleanup_job in_try y else on_reason y.cancel_reason y

-- With a timeout the handler runs in a task of its own, and a cancellation that was requested ends
-- the wait for it; without one it is the handler that gets the CancelledError, and may go on.
abbrev pub cut_off : Execution → Bool
cut_off x = x.process_cancel && is_timed x.job.timeout_seconds

unfoldable pub handler_returned : Value → Execution → Execution
handler_returned v x =
    if cut_off x
    then on_cancelled x
    else ack_job in_try (completing v) (record x { process_cancel = false })

unfoldable pub handler_raised : Str → Execution → Execution
handler_raised text x =
    if cut_off x
    then on_cancelled x
    else ack_job in_try (failing text) (record x { process_cancel = false })

-- `except asyncio.TimeoutError` of `_execute_handler`.
unfoldable pub timed_out : Execution → Execution
timed_out x =
    if not (is_timed x.job.timeout_seconds)
    then x
    else if x.process_cancel
    then on_cancelled x
    else ack_job in_except (failing (codes "Job timeout exceeded")) (record x { abort = true })

unfoldable pub swallowed : Execution → Execution
swallowed x = if is_timed x.job.timeout_seconds then x else record x { process_cancel = false }

-- `_job_heartbeat_loop` when its sleep is over, and when its request is answered.
unfoldable pub may_beat : Execution → Bool
may_beat x = not (x.lease_lost || (x.settled || not x.owner)) && is_set x.worker_id

abbrev pub begin_beat : Execution → Execution
begin_beat x = record x {
  heartbeat = beating;
  sent = heartbeat x.job.id (or_empty x.worker_id) x.job.lease_id x.lease_duration ∷ x.sent;
}

unfoldable pub beat : Execution → Execution
beat x =
    if x.heartbeat_cancel
    then record x { heartbeat = ended }
    else if may_beat x
    then begin_beat x
    else record x { heartbeat = ended }

-- Its `except` block; the test itself may raise there, and that ends the task.
unfoldable pub beat_failed : Exn → Execution → Execution
beat_failed e x =
    on_expired (is_lease_expired e)
      (record (lose_lease of_heartbeat (codes "heartbeat") x) { heartbeat = ended })
      (emits failed (record x { heartbeat = sleeping })) (record x { heartbeat = crashed })

unfoldable pub beat_answered : Result Response → Execution → Execution
beat_answered (ok r) x = record x { heartbeat = sleeping }
beat_answered (raised e) x = beat_failed e x

-- The loop of `stop()` over the executions that outlived the drain, for this one.
unfoldable pub signal_stop : Execution → Execution
signal_stop x =
    if x.owner
    then record x {
      cancel_reason = some (codes "Worker shutdown timeout");
      abort = true;
      process_cancel = (if is_over x.process || x.settled then x.process_cancel else true);
    }
    else x

-- `_abandon_job`, which `stop()` calls last for what it found listed; it may be delisted by then.
unfoldable pub abandon_job : Execution → Execution
abandon_job x =
    ack_job in_stop (failing (codes "Worker shutdown timeout")) (record x { abort = true })

-- The answer to the ack of the execution's own task; a cancellation that was requested comes first.
abbrev pub answer_ack : Bool → Ack → Result Response → Execution → Execution
answer_ack false a r x = if x.process_cancel then on_cancelled x else ack_answered in_try a r x
answer_ack true a r x =
    if x.process_cancel
    then cleanup_job in_except (record x { process_cancel = false })
    else ack_answered in_except a r x

abbrev pub answer_at : Place → Result Response → Execution → Execution
answer_at (acking late a) r x = answer_ack late a r x
answer_at _ r x = x

abbrev pub cancel_process : Execution → Execution
cancel_process x = if is_over x.process then x else record x { process_cancel = true }

-- Steps of a task at a place where it may take them.
abbrev pub is_unstarted : Place → Bool
is_unstarted unstarted = true
is_unstarted _ = false

abbrev pub is_handling : Place → Bool
is_handling handling = true
is_handling _ = false

abbrev pub is_joining : Place → Bool
is_joining joining = true
is_joining _ = false

abbrev pub is_sleeping : Beat → Bool
is_sleeping sleeping = true
is_sleeping _ = false

abbrev pub is_beating : Beat → Bool
is_beating beating = true
is_beating _ = false

abbrev pub is_idle : Stopping → Bool
is_idle idle = true
is_idle _ = false

abbrev pub is_awaiting : Stopping → Bool
is_awaiting awaiting = true
is_awaiting _ = false

-- The answer to the ack of `stop()`.
abbrev pub answer_stop : Stopping → Result Response → Execution → Execution
answer_stop (abandoning a) r x = ack_answered in_stop a r x
answer_stop _ r x = x

unfoldable pub step : Step → Execution → Execution
step process_runs x = if is_unstarted x.process then process_job x else x
step (handler_returns v) x = if is_handling x.process then handler_returned v x else x
step (handler_raises text) x = if is_handling x.process then handler_raised text x else x
step handler_unwinds x = if x.process_cancel && is_handling x.process then on_cancelled x else x
step handler_swallows x = if is_handling x.process then swallowed x else x
step handler_cancels x = if is_handling x.process then on_cancelled x else x
step timeout_elapses x = if is_handling x.process then timed_out x else x
step (process_answered r) x = answer_at x.process r x
step process_joined x =
    if is_joining x.process && is_done x.heartbeat then after_join in_try x.heartbeat x else x
step heartbeat_wakes x = if is_sleeping x.heartbeat then beat x else x
step (heartbeat_answered r) x =
    if not x.heartbeat_cancel && is_beating x.heartbeat then beat_answered r x else x
step heartbeat_unwinds x =
    if x.heartbeat_cancel && is_live x.heartbeat then record x { heartbeat = ended } else x
step stop_signals x = signal_stop x
step stop_abandons x = if is_idle x.stopping then abandon_job x else x
step (stop_answered r) x = answer_stop x.stopping r x
step stop_joined x =
    if is_awaiting x.stopping && is_done x.heartbeat then after_join in_stop x.heartbeat x else x
step replaced x = record x { owner = false }
step unregistered x = record x { worker_id = none }
step process_cancelled x = cancel_process x

unfoldable pub run : List Step → Execution → Execution
run [] x = x
run (s ∷ rest) x = run rest (step s x)
