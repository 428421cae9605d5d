-- ===== src/Worker/Section.antt =====
-- src/spooled/worker/worker.py: the sections that the methods run under the lock, by name, so that
-- what holds of the worker between two steps of any threads is proved section by section. A write
-- of one attribute outside the lock, which is atomic in Python, is a section too; the assignments
-- of `start` before it registers are one, since no other thread of the worker runs yet.
use spooled_sdk_python.Prelude.{
  ℕ, ◌&&◌, Bool, true, false, none, some, [], ◌∷◌, ◌++◌, Str, length, if◌then◌else◌,
}
use spooled_sdk_python.Worker.{
  ClaimedJob, Worker, Executor, missing, live, shut, starting, running, stopping, stopped, error,
  is_running, is_idle, cancel, owns,
}
use spooled_sdk_python.Worker.Locked.{
  settle, set_abort, abandon, cleanup, lose, arm_timeout, beats_on, arm_heartbeat, take_in,
  begin_poll, end_poll,
}

pub data Section : Type 0 where
  keep : Section
  settles aborts abandons cleans loses arms_timeout : ℕ → Section
  -- The first heartbeat of an execution, or a further one.
  arms_heartbeat : Bool → ℕ → Section
  takes : ClaimedJob → Section
  begins_poll : ℕ → Section
  ends_poll begins_start : Section
  sets_ids : Str → Section
  opens_executor runs fails_start schedules_beat : Section
  begins_stop signals_shutdown closes_intake stops_beats cancels_beat : Section
  shuts_executor drops_executor ends clears_id signals_stopped : Section

abbrev pub arms : Bool → ℕ → Worker → Bool
arms true a w = owns a w
arms false a w = beats_on a w

abbrev pub starts : Worker → Bool
starts w = is_idle w.state && w.handler

-- The assignments of `start` before it registers.
unfoldable pub begin_start : Worker → Worker
begin_start w =
    if starts w
    then record w {
      state = starting;
      shutdown_event = false;
      stopped_event = false;
      worker_heartbeat_stop = false;
      intake_closed = false;
      poll_in_flight = 0;
      poll_thread_id = none;
      registered_worker_id = none;
    }
    else w

-- The first section of `stop`.
unfoldable pub begin_stop : Worker → Worker
begin_stop w = if is_running w.state then record w { state = stopping } else w

abbrev shut_down : Executor → Executor
shut_down missing = missing
shut_down live = shut
shut_down shut = shut

unfoldable pub apply : Section → Worker → Worker
apply keep w = w
apply (settles a) w = settle a w
apply (aborts a) w = set_abort a w
apply (abandons a) w = abandon a w
apply (cleans a) w = cleanup a w
apply (loses a) w = lose a w
apply (arms_timeout a) w = arm_timeout a w
apply (arms_heartbeat first a) w = arm_heartbeat (arms first a w) a w
apply (takes j) w = take_in j w
apply (begins_poll me) w = begin_poll me w
apply ends_poll w = end_poll w
apply begins_start w = begin_start w
apply (sets_ids id) w = record w { worker_id = some id; registered_worker_id = some id }
apply opens_executor w = record w { executor = live }
apply runs w = record w { state = running }
apply fails_start w = record w { state = error }
apply schedules_beat w = record w {
  worker_heartbeat_timer = some (length w.timers);
  timers = w.timers ++ false ∷ [];
}
apply begins_stop w = begin_stop w
apply signals_shutdown w = record w { shutdown_event = true }
apply closes_intake w = record w { intake_closed = true }
apply stops_beats w = record w { worker_heartbeat_stop = true }
apply cancels_beat w = record w {
  worker_heartbeat_timer = none;
  timers = cancel w.worker_heartbeat_timer w.timers;
}
apply shuts_executor w = record w { executor = shut_down w.executor }
apply drops_executor w = record w { executor = missing }
apply ends w = record w { state = stopped }
apply clears_id w = record w { worker_id = none }
apply signals_stopped w = record w { stopped_event = true }
