-- ===== src/AsyncWorker/Change/Steps.antt =====
-- src/spooled/worker/async_worker.py: each step of the tasks makes such a change.
use spooled_sdk_python.Prelude.{
  ◌&&◌, not, Option, ◌⊎◌, Bool, true, false, none, some, Str, codes, ◌≡◌, refl, arith, Bool-cases,
  if_true, if_false, inl, inr, if◌then◌else◌,
}
use spooled_sdk_python.Json.{Value}
use spooled_sdk_python.Errors.{Result, ok, raised, is_lease_expired}
use spooled_sdk_python.Worker.Prog.{Response}
use spooled_sdk_python.AsyncWorker.{
  Ack, completing, failing, Beat, ended, Execution, Caller, in_try, in_except, in_stop,
  of_heartbeat, Place, unstarted, handling, acking, joining, over, Stopping, idle, abandoning,
  awaiting, through, broken, is_over, is_live, is_done, after_join,
}
use spooled_sdk_python.AsyncWorker.Tasks.{
  Step, process_runs, handler_returns, handler_raises, handler_unwinds, handler_swallows,
  handler_cancels, timeout_elapses, process_answered, process_joined, heartbeat_wakes,
  heartbeat_answered, heartbeat_unwinds, stop_signals, stop_abandons, stop_answered, stop_joined,
  replaced, unregistered, process_cancelled, abandon_job, answer_ack, answer_at, answer_stop, beat,
  beat_answered, beat_failed, cut_off, handler_raised, handler_returned, is_awaiting, is_beating,
  is_handling, is_idle, is_joining, is_sleeping, is_timed, is_unstarted, may_beat, on_cancelled,
  on_reason, process_job, signal_stop, step, swallowed, timed_out, begin_beat,
}
use spooled_sdk_python.AsyncWorker.Change.{
  Change, Change-ack_job, Change-path, Quiet, Quiet-ack_answered, Quiet-cleanup_job,
  Quiet-lose_lease, Quiet-on_expired, Quiet-refl,
}

pub Change-if :
    (b : Bool) (x y z : Execution) → Change x y → Change x z → Change x (if b then y else z)
Change-if true x y z h k = h
Change-if false x y z h k = k

Change-on_reason : (o : Option Str) (x : Execution) → Change x (on_reason o x)
Change-on_reason none x = inl (Quiet-cleanup_job in_try x _ (Quiet-refl x))
Change-on_reason (some reason) x = Change-ack_job in_except (failing reason) x

Change-on_cancelled : (x : Execution) → Change x (on_cancelled x)
unfolding on_cancelled
Change-on_cancelled x =
    Change-if x.lease_lost x _ _ (inl (Quiet-cleanup_job in_try x _ (Quiet-refl x)))
      (Change-on_reason x.cancel_reason (record x { process_cancel = false }))

Change-handler_returned : (v : Value) (x : Execution) → Change x (handler_returned v x)
unfolding handler_returned
Change-handler_returned v x =
    Change-if (cut_off x) x _ _ (Change-on_cancelled x)
      (Change-ack_job in_try (completing v) (record x { process_cancel = false }))

Change-handler_raised : (text : Str) (x : Execution) → Change x (handler_raised text x)
unfolding handler_raised
Change-handler_raised text x =
    Change-if (cut_off x) x _ _ (Change-on_cancelled x)
      (Change-ack_job in_try (failing text) (record x { process_cancel = false }))

Change-refl : (x : Execution) → Change x x
Change-refl x = inl (Quiet-refl x)

Change-timed_out : (x : Execution) → Change x (timed_out x)
unfolding timed_out
Change-timed_out x = Change-if (not (is_timed x.job.timeout_seconds)) x _ _ (Change-refl x) (
    Change-if x.process_cancel x _ _ (Change-on_cancelled x) (
      Change-ack_job in_except (failing (codes "Job timeout exceeded"))
        (record x { abort = true })))

Change-may_beat :
    (x : Execution)
    → (may_beat x ≡ true) ⊎ (may_beat x ≡ false)
    → Change x (if may_beat x then begin_beat x else record x { heartbeat = ended })
unfolding may_beat
Change-may_beat x (inl e) =
    Change-path x _ _ (if_true _ _ _ e)
      (inr (_, refl, ground (arith, e), ground (arith, e), ground (arith, e)))
Change-may_beat x (inr e) = Change-path x _ _ (if_false _ _ _ e) (Change-refl x)

Change-beat : (x : Execution) → Change x (beat x)
unfolding beat
Change-beat x =
    Change-if x.heartbeat_cancel x _ _ (Change-refl x) (Change-may_beat x (Bool-cases (may_beat x)))

Quiet-beat_answered : (r : Result Response) (x : Execution) → Quiet x (beat_answered r x)
unfolding beat_answered beat_failed
Quiet-beat_answered (ok r) x = Quiet-refl x
Quiet-beat_answered (raised e) x =
    Quiet-on_expired (is_lease_expired e) x _ _ _
      (Quiet-lose_lease of_heartbeat (codes "heartbeat") x x (Quiet-refl x)) (Quiet-refl x)
      (Quiet-refl x)

Change-answer_ack :
    (late : Bool) (a : Ack) (r : Result Response) (x : Execution) → Change x (answer_ack late a r x)
Change-answer_ack false a r x =
    Change-if x.process_cancel x _ _ (Change-on_cancelled x) (inl (Quiet-ack_answered in_try a r x))
Change-answer_ack true a r x =
    Change-if x.process_cancel x _ _ (inl (Quiet-cleanup_job in_except x _ (Quiet-refl x)))
      (inl (Quiet-ack_answered in_except a r x))

Change-answer_at : (p : Place) (r : Result Response) (x : Execution) → Change x (answer_at p r x)
Change-answer_at (acking late a) r x = Change-answer_ack late a r x
Change-answer_at unstarted r x = Change-refl x
Change-answer_at handling r x = Change-refl x
Change-answer_at joining r x = Change-refl x
Change-answer_at over r x = Change-refl x

Change-answer_stop :
    (p : Stopping) (r : Result Response) (x : Execution) → Change x (answer_stop p r x)
Change-answer_stop (abandoning a) r x = inl (Quiet-ack_answered in_stop a r x)
Change-answer_stop idle r x = Change-refl x
Change-answer_stop awaiting r x = Change-refl x
Change-answer_stop through r x = Change-refl x
Change-answer_stop broken r x = Change-refl x

Quiet-after_join : (who : Caller) (b : Beat) (x : Execution) → Quiet x (after_join who b x)
Quiet-after_join who b x = ground arith

-- A step where its test holds, and nothing elsewhere.
Change-when : (b : Bool) (x y : Execution) → Change x y → Change x (if b then y else x)
Change-when b x y h = Change-if b x y x h (Change-refl x)

pub Change-step : (s : Step) (x : Execution) → Change x (step s x)
unfolding step process_job swallowed signal_stop abandon_job
Change-step process_runs x =
    Change-when (is_unstarted x.process) x _
      (Change-if x.process_cancel x _ _ (Change-refl x) (Change-refl x))
Change-step (handler_returns v) x =
    Change-when (is_handling x.process) x _ (Change-handler_returned v x)
Change-step (handler_raises text) x =
    Change-when (is_handling x.process) x _ (Change-handler_raised text x)
Change-step handler_unwinds x =
    Change-when (x.process_cancel && is_handling x.process) x _ (Change-on_cancelled x)
Change-step handler_swallows x =
    Change-when (is_handling x.process) x _
      (Change-if (is_timed x.job.timeout_seconds) x _ _ (Change-refl x) (Change-refl x))
Change-step handler_cancels x = Change-when (is_handling x.process) x _ (Change-on_cancelled x)
Change-step timeout_elapses x = Change-when (is_handling x.process) x _ (Change-timed_out x)
Change-step (process_answered r) x = Change-answer_at x.process r x
Change-step process_joined x =
    Change-when (is_joining x.process && is_done x.heartbeat) x _
      (inl (Quiet-after_join in_try x.heartbeat x))
Change-step heartbeat_wakes x = Change-when (is_sleeping x.heartbeat) x _ (Change-beat x)
Change-step (heartbeat_answered r) x =
    Change-when (not x.heartbeat_cancel && is_beating x.heartbeat) x _
      (inl (Quiet-beat_answered r x))
Change-step heartbeat_unwinds x =
    Change-when (x.heartbeat_cancel && is_live x.heartbeat) x _ (Change-refl x)
Change-step stop_signals x = Change-when x.owner x _ (Change-refl x)
Change-step stop_abandons x =
    Change-when (is_idle x.stopping) x _ (
      Change-ack_job in_stop (failing (codes "Worker shutdown timeout"))
        (record x { abort = true }))
Change-step (stop_answered r) x = Change-answer_stop x.stopping r x
Change-step stop_joined x =
    Change-when (is_awaiting x.stopping && is_done x.heartbeat) x _
      (inl (Quiet-after_join in_stop x.heartbeat x))
Change-step replaced x = inl (refl, refl, ground arith)
Change-step unregistered x = Change-refl x
Change-step process_cancelled x =
    Change-if (is_over x.process) x _ _ (Change-refl x) (Change-refl x)
