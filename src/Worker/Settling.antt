-- ===== src/Worker/Settling.antt =====
-- src/spooled/worker/worker.py: the acks of one job, and the loss of its lease, as programs. Each takes
-- what follows it as its last argument. Debug output is left out.
use spooled_sdk_python.Prelude.{
  ℕ, zero, suc, ltb, Bool, true, false, Option, none, some, [], ◌∷◌, Str, codes, lower, contains,
  if◌then◌else◌,
}
use spooled_sdk_python.Json.{Value, str}
use spooled_sdk_python.Errors.{
  Exn, Result, ok, raised, spooled, attribute_error, is_conflict, is_lease_expired,
}
use spooled_sdk_python.Worker.{ClaimedJob, ActiveJob, Worker, find_exec, is_lost}
use spooled_sdk_python.Worker.Locked.{settlement}
use spooled_sdk_python.Worker.Section.{keep, settles, aborts, abandons, loses}
use spooled_sdk_python.Worker.Prog.{
  Prog, locked, call, emit, complete, fail, Response, failed, job_completed, job_failed,
  job_lease_lost,
}

abbrev pub take : ℕ → Str → Str
take zero s = []
take (suc n) [] = []
take (suc n) (c ∷ s) = c ∷ take n s

-- `coerce_fail_error` of src/spooled/types/jobs.py, on a text.
unfoldable pub coerce_fail_error : Str → Str
coerce_fail_error [] = codes "Job failed"
coerce_fail_error (c ∷ s) = take 2048 (c ∷ s)

-- `self._worker_id or ""`-like reading of an id that is known to be set.
abbrev pub or_empty : Option Str → Str
or_empty none = []
or_empty (some s) = s

-- Reads of the worker that change nothing.
abbrev pub read : (Worker → Prog) → Prog
read = locked keep

-- The job of an execution; every execution that a program names is in the store.
abbrev pub with_exec : Option ActiveJob → (ClaimedJob → Prog) → Prog → Prog
with_exec none k otherwise = otherwise
with_exec (some x) k otherwise = k x.job

abbrev pub with_job : ℕ → (ClaimedJob → Prog) → Prog → Prog
with_job a k otherwise = read (λ w. with_exec (find_exec a w.execs) k otherwise)

-- `e.message.lower()`.
unfoldable pub lower_message : Value → Result Str
lower_message (str s) = ok (lower s)
lower_message _ = raised attribute_error

abbrev pub exn_is_conflict : Exn → Bool
exn_is_conflict (spooled e) = is_conflict e.kind
exn_is_conflict _ = false

-- `"already completed" in e.message.lower()`, false also where that raises.
unfoldable pub already_completed : Exn → Bool
unfolding lower_message
already_completed (spooled e) = elim (lower_message e.message) [
  | ok s ↦ contains (codes "already completed") s
  | raised x ↦ false
]
already_completed _ = false

-- What an ack's exception is: a lost lease, or anything else; the test itself may raise, and that
-- exception takes the place of the first.
abbrev pub on_lease : Result Bool → Prog → Prog → Prog → Prog
on_lease (ok true) lost other failure = lost
on_lease (ok false) lost other failure = other
on_lease (raised x) lost other failure = failure

-- `_lose_lease`.
unfoldable pub lose_lease : ℕ → Str → Prog → Prog
lose_lease a operation k = locked (loses a) λ w.
    if is_lost a w
    then k
    else locked (aborts a)
        λ v. with_exec (find_exec a v.execs) (λ j. emit (job_lease_lost j.id operation) k) k

-- `_claim_settlement`.
abbrev pub on_settlement : Option Str → Prog → (Str → Prog) → Prog
on_settlement none refused k = refused
on_settlement (some id) refused k = k id

unfoldable pub claim_settlement : ℕ → Prog → (Str → Prog) → Prog
claim_settlement a refused k = locked (settles a) λ w. on_settlement (settlement a w) refused k

-- The ack's reply in `_complete_job`.
unfoldable pub completed : ℕ → ClaimedJob → Value → Prog → Result Response → Prog
unfolding lose_lease
completed a j result k (ok r) = emit (job_completed j.id result) k
completed a j result k (raised e) =
    let success = emit (job_completed j.id result) k in
    let failure = emit failed k in
    if exn_is_conflict e
    then on_lease (is_lease_expired e) (lose_lease a (codes "complete") k)
        (if already_completed e then success else failure) failure
    else failure

-- `_complete_job`.
unfoldable pub complete_job : ℕ → Value → Prog → Prog
unfolding claim_settlement completed
complete_job a result k =
    with_job a
      (λ j. claim_settlement a k λ id. read λ w.
        if is_lost a w
        then k
        else call (some a) (complete j.id id j.lease_id result) (completed a j result k))
      k

-- The ack's reply in `_send_fail`.
unfoldable pub send_failed : ℕ → ClaimedJob → Str → Prog → Result Response → Prog
unfolding lose_lease
send_failed a j error k (ok r) = emit (job_failed j.id error (ltb j.retry_count j.max_retries)) k
send_failed a j error k (raised e) =
    let failure = emit failed k in
    if exn_is_conflict e
    then on_lease (is_lease_expired e) (lose_lease a (codes "fail") k) failure failure
    else failure

-- `_send_fail`.
unfoldable pub send_fail : ℕ → Str → Str → Prog → Prog
unfolding send_failed
send_fail a id message k =
    with_job a
      (λ j.
        let error = coerce_fail_error message in
        read λ w.
          if is_lost a w
          then k
          else call (some a) (fail j.id id j.lease_id error) (send_failed a j error k))
      k

-- `_fail_job`.
unfoldable pub fail_job : ℕ → Str → Prog → Prog
unfolding claim_settlement send_fail
fail_job a message k = claim_settlement a k λ id. send_fail a id message k

-- `_abandon_job`.
unfoldable pub abandon_job : ℕ → Str → Prog → Prog
unfolding claim_settlement send_fail
abandon_job a reason k =
    locked (aborts a)
      λ v. claim_settlement a k λ id. send_fail a id reason (locked (abandons a) λ w. k)
