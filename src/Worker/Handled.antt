-- ===== src/Worker/Handled.antt =====
-- src/spooled/worker/worker.py: what becomes of a handler's outcome.
use spooled_sdk_python.Prelude.{
  ℕ, zero, suc, ◌≤◌, true, false, some, [], ◌∷◌, Str, ◌≡◌, arith, length,
}
use spooled_sdk_python.Errors.{Exn, Result, ok, raised}
use spooled_sdk_python.Json.{Value}
use spooled_sdk_python.Worker.{ClaimedJob, ActiveJob, Worker, find_exec, is_lost, is_settled}
use spooled_sdk_python.Worker.Locked.{settle, settlement}
use spooled_sdk_python.Worker.Section.{apply}
use spooled_sdk_python.Worker.Prog.{Prog, Task, Request, complete, fail, Response, run, go, reply}
use spooled_sdk_python.Worker.Prog
use spooled_sdk_python.Worker.Settling.{
  take, coerce_fail_error, complete_job, fail_job, send_fail, claim_settlement,
}
use spooled_sdk_python.Worker.Jobs.{handled}
use spooled_sdk_python.Worker.Leak.{find-modify}

length-take : (n : ℕ) (s : Str) → length (take n s) ≤ n
length-take zero s = omega arith
length-take (suc n) [] = omega arith
length-take (suc n) (c ∷ s) = omega (arith, length-take n s)

-- Whatever the handler's exception says, the text of a `fail` is neither empty nor longer than the
-- 2048 characters that the API accepts.
pub length-coerce_fail_error :
    (s : Str) → (1 ≤ length (coerce_fail_error s)) × (length (coerce_fail_error s) ≤ 2048)
unfolding coerce_fail_error
length-coerce_fail_error [] = (omega arith, omega arith)
length-coerce_fail_error (c ∷ s) = (omega arith, omega (arith, length-take 2047 s))

-- The ack that an outcome asks for.
abbrev pub ack : (Exn → Str) → Str → ClaimedJob → Result Value → Request
ack show id j (ok v) = complete j.id id j.lease_id v
ack show id j (raised e) = fail j.id id j.lease_id (coerce_fail_error (show e))

settled-facts :
    (a : ℕ) (w : Worker) {x : ActiveJob} {id : Str}
    → find_exec a w.execs ≡ some x
    → settlement a w ≡ some id
    → (find_exec a (settle a w).execs ≡ some (record x { settled = true }))
      × (is_lost a (settle a w) ≡ false)
      × (is_settled a (settle a w) ≡ true)
unfolding settle settlement is_lost is_settled
settled-facts a w e s = ground (arith, find-modify a (λ y. record y { settled = true }) w.execs e)

-- A handler whose execution may still be acked when it ends is acked: if it returned, `complete`
-- is sent with its value; if it raised, `fail` with the text of the exception, made fit for the
-- API. Either carries the job's lease id and the worker's id, nothing else is sent by the time the
-- server replies, and the execution is settled then. No other thread moves in between.
pub handled_acks :
    (body : Task → Prog) (show : Exn → Str) (a : ℕ) (out : Result Value) (r : Result Response)
    (w : Worker) {x : ActiveJob} {id : Str}
    → find_exec a w.execs ≡ some x
    → settlement a w ≡ some id
    → let s =
        run body
          ((0, go) ∷ (0, go) ∷ (0, go) ∷ (0, reply r) ∷ [])
          (record { worker = w; threads = handled show a out ∷ []; sent = [] }) in
      (s.sent ≡ (some a, ack show id x.job out) ∷ []) × (is_settled a s.worker ≡ true)
unfolding run Prog.take_turn Prog.advance handled complete_job fail_job send_fail claim_settlement
    apply
handled_acks body show a (ok v) r w e s = ground (arith, settled-facts a w e s)
handled_acks body show a (raised x) r w e s = ground (arith, settled-facts a w e s)
