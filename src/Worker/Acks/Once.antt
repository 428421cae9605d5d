-- ===== src/Worker/Acks/Once.antt =====
-- src/spooled/worker/worker.py: the theorem on acks, over every interleaving of a started worker.
use spooled_sdk_python.Prelude.{ℕ, ◌≤◌, Bool, true, false, List, [], ◌∷◌, Str, refl, arith}
use spooled_sdk_python.Errors.{Exn}
use spooled_sdk_python.Worker.{Options, new_worker, is_settled}
use spooled_sdk_python.Worker.Prog.{Prog, World, Schedule, run}
use spooled_sdk_python.Worker.Loop.{start, stop, body}
use spooled_sdk_python.Worker.Acks.Sound.{Rights, bit, count_acks, run-Rights}
use spooled_sdk_python.Worker.Acks.Tasks.{start-Always, stop-Always, body-Always}

abbrev pub stops : List ℕ → List Prog
stops [] = []
stops (me ∷ rest) = stop me ∷ stops rest

-- A new worker, a thread that calls `start`, and any threads that call `stop`.
unfoldable pub launch : Options → Bool → ℕ → List ℕ → World
launch o handler me stoppers = record {
  worker = new_worker o handler;
  threads = start me ∷ stops stoppers;
  sent = [];
}

bit-le : (b : Bool) → bit b ≤ 1
bit-le false = omega arith
bit-le true = omega arith

stops-Rights : (a : ℕ) (xs : List ℕ) → Rights a (stops xs) 0
stops-Rights a [] = refl
stops-Rights a (me ∷ rest) = (false, 0, stop-Always a me false, stops-Rights a rest, refl)

-- However its threads interleave, and whatever the server, the handlers and the clock answer, a
-- worker sends at most one ack (complete or fail) for an execution, and none unless the execution
-- was settled under the lock. `show` is the text of an exception.
pub acks_once :
    (show : Exn → Str) (o : Options) (handler : Bool) (me : ℕ) (stoppers : List ℕ)
    (sched : Schedule) (a : ℕ)
    → let s = run (body show) sched (launch o handler me stoppers) in
      (count_acks a s.sent ≤ bit (is_settled a s.worker)) × (count_acks a s.sent ≤ 1)
unfolding launch
acks_once show o handler me stoppers sched a = (kept, omega (arith, kept, bit-le _))
  where
    kept :
        let s = run (body show) sched (launch o handler me stoppers) in
        count_acks a s.sent ≤ bit (is_settled a s.worker)
    kept =
        run-Rights a (body show) (λ t. body-Always a show t false) sched
          (launch o handler me stoppers) 0
          (false, 0, start-Always a me false, stops-Rights a stoppers, refl) (omega arith)
