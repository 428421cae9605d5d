-- ===== src/Worker/Intake.antt =====
-- src/spooled/worker/worker.py: once `stop` has closed the intake, no job is started.
use spooled_sdk_python.Prelude.{
  ℕ, zero, suc, true, false, none, some, List, [], ◌∷◌, ◌≡◌, refl, ◌∙◌, ap, arith, is_set, length,
}
use spooled_sdk_python.Errors.{Result}
use spooled_sdk_python.Worker.{ClaimedJob, ActiveJob, Worker, modify_exec, is_idle}
use spooled_sdk_python.Worker.Locked.{
  settle, set_abort, abandon, cleanup, lose, arm_timeout, arm_heartbeat, take_in, begin_poll,
  end_poll, drop_job, mark_abandoned, cancel_timers, free_slot,
}
use spooled_sdk_python.Worker.Section.{
  Section, settles, aborts, abandons, cleans, loses, arms_timeout, arms_heartbeat, takes,
  begins_poll, begins_start, begins_stop, closes_intake, runs, fails_start, ends, apply,
  begin_start, begin_stop,
}
use spooled_sdk_python.Worker.Prog.{
  World, Schedule, Task, Prog, run, Request, fail, Response, go, reply,
}
use spooled_sdk_python.Worker.Prog
use spooled_sdk_python.Worker.Settling.{or_empty}
use spooled_sdk_python.Worker.Jobs.{
  process_job, release_unstarted_job, releasing_id, unstarted_claim_error,
}
use spooled_sdk_python.Worker.Runs.{run-P}

-- The intake is closed, the worker was started, and it has taken in so many executions.
pub record IsClosed (n : ℕ) (w : Worker) : Type 0 where
  pub intake : w.intake_closed ≡ true
  pub busy : is_idle w.state ≡ false
  pub taken : length w.execs ≡ n

length-modify :
    (b : ℕ) (f : ActiveJob → ActiveJob) (xs : List ActiveJob)
    → length (modify_exec b f xs) ≡ length xs
unfolding modify_exec
length-modify b f [] = refl
length-modify zero f (x ∷ xs) = refl
length-modify (suc b) f (x ∷ xs) = ap suc (length-modify b f xs)

IsClosed-modify :
    (n b : ℕ) (f : ActiveJob → ActiveJob) (w v : Worker)
    → v.intake_closed ≡ w.intake_closed
    → v.state ≡ w.state
    → v.execs ≡ modify_exec b f w.execs
    → IsClosed n w
    → IsClosed n v
IsClosed-modify n b f w v i s e h = record {
  intake = i ∙ h.intake;
  busy = ap is_idle s ∙ h.busy;
  taken = ap length e ∙ length-modify b f w.execs ∙ h.taken;
}

IsClosed-drop_job : (n b : ℕ) (w : Worker) → IsClosed n w → IsClosed n (drop_job b w)
unfolding drop_job
IsClosed-drop_job n b w h = ground arith

IsClosed-mark_abandoned : (n b : ℕ) (w : Worker) → IsClosed n w → IsClosed n (mark_abandoned b w)
unfolding mark_abandoned
IsClosed-mark_abandoned n b w h =
    ground (arith, length-modify b (λ y. record y { abandoned = true }) w.execs)

IsClosed-free_slot : (n b : ℕ) (w : Worker) → IsClosed n w → IsClosed n (free_slot b w)
unfolding free_slot
IsClosed-free_slot n b w h =
    ground (arith, length-modify b (λ y. record y { abandoned = false }) w.execs)

IsClosed-apply : (n : ℕ) (f : Section) (w : Worker) → IsClosed n w → IsClosed n (apply f w)
unfolding apply settle set_abort abandon cleanup lose arm_timeout arm_heartbeat take_in begin_poll
    end_poll cancel_timers begin_start begin_stop
IsClosed-apply n (settles b) w h =
    ground (arith, length-modify b (λ x. record x { settled = true }) w.execs)
IsClosed-apply n (aborts b) w h = IsClosed-modify n b _ w _ refl refl refl h
IsClosed-apply n (abandons b) w h =
    let v = mark_abandoned b (drop_job b w) in
    let k = IsClosed-mark_abandoned n b (drop_job b w) (IsClosed-drop_job n b w h) in
    record { intake = k.intake; busy = k.busy; taken = k.taken }
IsClosed-apply n (cleans b) w h =
    let k = IsClosed-free_slot n b (drop_job b w) (IsClosed-drop_job n b w h) in
    record { intake = k.intake; busy = k.busy; taken = k.taken }
IsClosed-apply n (loses b) w h = ground (
  arith,
  length-modify b
      (λ x. record x { lease_lost = true; heartbeat_timer = none; timeout_timer = none }) w.execs,
)
IsClosed-apply n (arms_timeout b) w h =
    ground
      (arith, length-modify b (λ x. record x { timeout_timer = some (length w.timers) }) w.execs)
IsClosed-apply n (arms_heartbeat first b) w h =
    ground
      (arith, length-modify b (λ x. record x { heartbeat_timer = some (length w.timers) }) w.execs)
IsClosed-apply n (takes j) w h = ground arith
IsClosed-apply n (begins_poll me) w h = ground arith
IsClosed-apply n begins_start w h = ground arith
IsClosed-apply n begins_stop w h = ground arith
IsClosed-apply n runs w h = record { intake = h.intake; busy = refl; taken = h.taken }
IsClosed-apply n fails_start w h = record { intake = h.intake; busy = refl; taken = h.taken }
IsClosed-apply n ends w h = record { intake = h.intake; busy = refl; taken = h.taken }
IsClosed-apply n closes_intake w h = record { intake = refl; busy = h.busy; taken = h.taken }
IsClosed-apply n f w h = record { intake = h.intake; busy = h.busy; taken = h.taken }

-- Once the intake of a started worker is closed, it stays closed and no further execution is ever
-- taken in, whatever the threads do.
pub run-IsClosed :
    (body : Task → Prog) (sched : Schedule) (s : World) (n : ℕ)
    → IsClosed n s.worker
    → IsClosed n (run body sched s).worker
run-IsClosed body sched s n h = run-P (IsClosed n) (IsClosed-apply n) body sched s h

-- A job that arrives at a closed intake is not started: if `_worker_id` or `_registered_worker_id`
-- is set, its lease is given back by a `fail` that carries its lease id and the first of these ids
-- that is set; nothing else is sent and the worker does not change, when no other thread moves in
-- between.
pub process_job_released :
    (body : Task → Prog) (j : ClaimedJob) (k broken : Prog) (r : Result Response) (w : Worker)
    → w.intake_closed ≡ true
    → is_set (releasing_id w) ≡ true
    → let s =
        run body
          ((0, go) ∷ (0, go) ∷ (0, reply r) ∷ [])
          (record { worker = w; threads = process_job j k broken ∷ []; sent = [] }) in
      (s.sent ≡ (none, fail j.id (or_empty (releasing_id w)) j.lease_id unstarted_claim_error) ∷ [])
      × (s.worker ≡ w)
unfolding run Prog.take_turn Prog.advance process_job release_unstarted_job apply take_in
process_job_released body j k broken r w c i = ground arith
