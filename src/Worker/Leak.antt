-- ===== src/Worker/Leak.antt =====
-- src/spooled/worker/worker.py: `_abandon_job` racing with the handler that it gives up.
use spooled_sdk_python.Prelude.{
  ℕ, zero, suc, ◌+◌, true, false, none, some, List, [], ◌∷◌, Str, ◌≡◌, arith,
}
use spooled_sdk_python.Errors.{Exn, ok}
use spooled_sdk_python.Json.{Value}
use spooled_sdk_python.Worker.{ActiveJob, Worker, find_exec, modify_exec, is_lost, is_settled}
use spooled_sdk_python.Worker.Section.{abandons, apply}
use spooled_sdk_python.Worker.Prog.{Prog, done, locked, Task, Response, run, go, reply}
use spooled_sdk_python.Worker.Prog
use spooled_sdk_python.Worker.Settling.{send_fail, send_failed, complete_job, claim_settlement}
use spooled_sdk_python.Worker.Jobs.{handled}
use spooled_sdk_python.Worker.Locked.{
  settle, settlement, abandon, cleanup, drop_job, mark_abandoned, cancel_timers, free_slot,
  is_abandoned,
}

pub find-modify :
    (b : ℕ) (f : ActiveJob → ActiveJob) (xs : List ActiveJob) {x : ActiveJob}
    → find_exec b xs ≡ some x
    → find_exec b (modify_exec b f xs) ≡ some (f x)
unfolding find_exec modify_exec
find-modify b f [] e = cc
find-modify zero f (y ∷ xs) e = ground arith
find-modify (suc b) f (y ∷ xs) e = find-modify b f xs e

execs-drop_job :
    (a : ℕ) (w : Worker)
    → ((drop_job a w).execs ≡ w.execs) × ((drop_job a w).abandoned_running ≡ w.abandoned_running)
unfolding drop_job
execs-drop_job a w = ground arith

cleanup-fresh :
    (a : ℕ) (w : Worker) {x : ActiveJob}
    → find_exec a w.execs ≡ some x
    → x.abandoned ≡ false
    → ((cleanup a w).execs ≡ w.execs) × ((cleanup a w).abandoned_running ≡ w.abandoned_running)
unfolding cleanup free_slot is_abandoned cancel_timers
cleanup-fresh a w e f = ground (arith, execs-drop_job a w)

abandon-cleaned :
    (a : ℕ) (w : Worker) {x : ActiveJob}
    → find_exec a w.execs ≡ some x
    → x.abandoned ≡ false
    → (abandon a (cleanup a w)).abandoned_running ≡ w.abandoned_running + 1
unfolding abandon mark_abandoned cancel_timers
abandon-cleaned a w e f = ground (arith, cleanup-fresh a w e f, execs-drop_job a (cleanup a w))

settle-settled :
    (a : ℕ) (w : Worker) {x : ActiveJob}
    → find_exec a w.execs ≡ some x
    → x.settled ≡ true
    → (settlement a w ≡ none) × (settle a w ≡ w)
unfolding settle settlement is_settled
settle-settled a w e s = ground arith

-- The `fail` of an execution that `_abandon_job` has settled, and whose lease is not lost, is in
-- flight when the handler returns: the handler's own ack is refused and its thread ends, and only
-- then `_abandon_job` counts the slot as held. Both threads are over and the slot stays counted.
pub abandon_job_after_handler :
    (body : Task → Prog) (show : Exn → Str) (a : ℕ) (id reason : Str) (v : Value) (r : Response)
    (w : Worker) {x : ActiveJob}
    → find_exec a w.execs ≡ some x
    → x.settled ≡ true
    → x.lease_lost ≡ false
    → x.abandoned ≡ false
    → let s =
        run body
          ((0, go)
            ∷ (0, go)
            ∷ (1, go)
            ∷ (1, go)
            ∷ (1, go)
            ∷ (0, reply (ok r))
            ∷ (0, go)
            ∷ (0, go)
            ∷ [])
          (record {
            worker = w;
            threads =
                send_fail a id reason (locked (abandons a) λ _. done) ∷ handled show a (ok v) ∷ [];
            sent = [];
          }) in
      (s.threads ≡ done ∷ done ∷ []) × (s.worker.abandoned_running ≡ w.abandoned_running + 1)
unfolding run Prog.take_turn Prog.advance send_fail send_failed handled complete_job
    claim_settlement apply is_lost
abandon_job_after_handler body show a id reason v r w e s l f =
    ground (arith, settle-settled a w e s, abandon-cleaned a w e f)
