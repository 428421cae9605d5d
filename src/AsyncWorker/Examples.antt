-- ===== src/AsyncWorker/Examples.antt =====
-- src/spooled/worker/async_worker.py: one job from its claim to its end, and a worker that stops.
use spooled_sdk_python.Prelude.{true, some, List, [], ◌∷◌, codes, ◌⊎◌, ◌≡◌, refl}
use spooled_sdk_python.Prelude.Int.{pos}
use spooled_sdk_python.Json.{null}
use spooled_sdk_python.Errors.{ok}
use spooled_sdk_python.Worker.{ClaimedJob}
use spooled_sdk_python.Worker.Prog.{nothing}
use spooled_sdk_python.Worker.Slots.{one_if}
use spooled_sdk_python.AsyncWorker.{
  Execution, register_job, claim_settlement, ack_job, send_ack, cleanup_job, ack_answered,
}
use spooled_sdk_python.AsyncWorker.Tasks.{
  Step, process_runs, handler_returns, handler_cancels, heartbeat_wakes, heartbeat_unwinds,
  process_answered, process_joined, stop_signals, stop_abandons, handler_swallows, step, run,
  process_job, handler_returned, is_timed, beat, may_beat, swallowed, signal_stop,
}
use spooled_sdk_python.AsyncWorker.Change.{acks}
use spooled_sdk_python.AsyncWorker.Acks.{acks_settled, silent_when_out, own_cancel_silent}
use spooled_sdk_python.AsyncWorker.Dropped.{is_own, all_own, delisted_acked, abandoned_acked}

abbrev job : ClaimedJob
job = record {
  id = codes "j";
  queue_name = codes "q";
  payload = null;
  retry_count = 0;
  max_retries = 3;
  timeout_seconds = pos 0;
  lease_id = some (codes "l");
}

abbrev claimed : Execution
claimed = register_job job 30 (codes "w")

-- The handler returns while a heartbeat is in flight.
abbrev served : List Step
served =
    process_runs
    ∷ heartbeat_wakes
    ∷ handler_returns null
    ∷ process_answered (ok nothing)
    ∷ heartbeat_unwinds
    ∷ process_joined
    ∷ []

-- The handler swallows the cancellation that `stop()` sent.
abbrev stubborn : List Step
stubborn = process_runs ∷ heartbeat_wakes ∷ stop_signals ∷ handler_swallows ∷ []

acks_settled_example : acks (run served claimed).sent ≡ one_if (run served claimed).settled
acks_settled_example = acks_settled served job 30 (codes "w")

delisted_acked_example :
    (acks (run served claimed).sent ≡ 1) ⊎ ((run served claimed).lease_lost ≡ true)
unfolding run step register_job all_own is_own process_job handler_returned is_timed ack_job
    claim_settlement send_ack cleanup_job ack_answered beat may_beat
delisted_acked_example = delisted_acked served job 30 (codes "w") refl refl refl

abandoned_acked_example :
    (acks
        (run
          (process_runs ∷ heartbeat_wakes ∷ stop_signals ∷ handler_swallows ∷ stop_abandons ∷ [])
          claimed).sent
      ≡ 1)
    ⊎ ((run
          (process_runs ∷ heartbeat_wakes ∷ stop_signals ∷ handler_swallows ∷ stop_abandons ∷ [])
          claimed).lease_lost
        ≡ true)
unfolding run step register_job all_own is_own process_job swallowed signal_stop is_timed beat
    may_beat
abandoned_acked_example = abandoned_acked stubborn job 30 (codes "w") refl refl refl

abbrev lost : Execution
lost = record (run (process_runs ∷ []) claimed) { lease_lost = true }

silent_when_out_example : (run (handler_returns null ∷ stop_abandons ∷ []) lost).sent ≡ lost.sent
silent_when_out_example = silent_when_out (handler_returns null ∷ stop_abandons ∷ []) lost refl

abbrev begun : Execution
begun = run (process_runs ∷ []) claimed

own_cancel_silent_example : (run (handler_cancels ∷ stop_abandons ∷ []) begun).sent ≡ begun.sent
unfolding run step process_job register_job
own_cancel_silent_example = own_cancel_silent (stop_abandons ∷ []) begun refl refl
