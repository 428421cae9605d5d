-- ===== src/AsyncWorker/Acks.antt =====
-- src/spooled/worker/async_worker.py: how often an execution is acked, and what is sent for it.
use spooled_sdk_python.AsyncWorker.Change.{is_out, acks, Change}
use spooled_sdk_python.AsyncWorker.Change.Steps.{Change-step}
use spooled_sdk_python.Prelude.{
  ℕ, ◌||◌, not, Bool, true, false, none, List, [], ◌∷◌, Str, ◌≡◌, refl, ◌∙◌, ap, arith, if_true,
  inl, inr, if◌then◌else◌,
}
use spooled_sdk_python.Worker.{ClaimedJob}
use spooled_sdk_python.Worker.Slots.{one_if}
use spooled_sdk_python.AsyncWorker.{Execution, in_try, cleanup_job, register_job, handling}
use spooled_sdk_python.AsyncWorker.Tasks.{
  Step, handler_cancels, is_handling, on_cancelled, on_reason, run, step,
}

acks-Change :
    (x y : Execution) → Change x y → acks x.sent ≡ one_if x.settled → acks y.sent ≡ one_if y.settled
acks-Change x y (inl (e, s, l)) h = rw (e, s) h
acks-Change x y (inr (r, e, l, s, t)) h = ground (arith, ap acks e, t, s, h)

acks-run :
    (steps : List Step) (x : Execution)
    → acks x.sent ≡ one_if x.settled
    → acks (run steps x).sent ≡ one_if (run steps x).settled
unfolding run
acks-run [] x h = h
acks-run (s ∷ rest) x h = acks-run rest (step s x) (acks-Change x (step s x) (Change-step s x) h)

-- However the steps of an execution's own task, of its heartbeat task and of `stop()` interleave,
-- with any answers, cancellations, newer claims of the job and loss of the worker's id, the
-- execution sends exactly one `complete` or `fail` if its settlement was claimed, and none
-- otherwise; so it never sends two.
pub acks_settled :
    (steps : List Step) (j : ClaimedJob) (n : ℕ) (w : Str)
    → acks (run steps (register_job j n w)).sent ≡ one_if (run steps (register_job j n w)).settled
unfolding register_job
acks_settled steps j n w = acks-run steps (register_job j n w) refl

if_same : (b : Bool) (x : Execution) → (if b then x else x) ≡ x
if_same true x = refl
if_same false x = refl

not_listed : (x : Execution) → x.owner ≡ false → is_out x ≡ true
not_listed x h = ground (arith, h)

out-Change :
    (x y : Execution) → Change x y → is_out x ≡ true → (y.sent ≡ x.sent) × (is_out y ≡ true)
out-Change x y (inl (e, s, l)) h = (e, ground (arith, l, h))
out-Change x y (inr (r, e, l, s, t)) h = cc

-- Once the lease of an execution is known to be lost, or the execution is no longer the listed one
-- of its job, nothing more is sent for it, by its own task, by its heartbeat task or by `stop()`:
-- no `complete`, no `fail` and no `heartbeat`, whatever steps follow.
pub silent_when_out :
    (steps : List Step) (x : Execution)
    → x.lease_lost || not x.owner ≡ true
    → (run steps x).sent ≡ x.sent
unfolding run
silent_when_out [] x h = refl
silent_when_out (s ∷ rest) x h =
    let (e, l) = out-Change x (step s x) (Change-step s x) h in
    silent_when_out rest (step s x) l ∙ e

cleaned-Quiet :
    (x : Execution)
    → ((cleanup_job in_try x).sent ≡ x.sent) × ((cleanup_job in_try x).owner ≡ false)
unfolding cleanup_job
cleaned-Quiet x = ground arith

cancelled-cleans :
    (x : Execution)
    → x.process ≡ handling
    → x.cancel_reason ≡ none
    → step handler_cancels x ≡ cleanup_job in_try (record x { process_cancel = false })
unfolding step on_cancelled
cancelled-cleans x p c =
    if_true _ _ _ (ap is_handling p)
    ∙ (ap
          (λ o.
            if x.lease_lost
            then cleanup_job in_try (record x { process_cancel = false })
            else on_reason o (record x { process_cancel = false }))
          c
        ∙ if_same x.lease_lost _)

-- Where a handler raises a CancelledError of its own, while nobody gave a reason to cancel the
-- execution, nothing is sent for the job from then on: no `fail`, and no `heartbeat`, whatever
-- steps follow.
pub own_cancel_silent :
    (steps : List Step) (x : Execution)
    → x.process ≡ handling
    → x.cancel_reason ≡ none
    → (run (handler_cancels ∷ steps) x).sent ≡ x.sent
unfolding run
own_cancel_silent steps x p c =
    let y = cleanup_job in_try (record x { process_cancel = false }) in
    let (e, o) = cleaned-Quiet (record x { process_cancel = false }) in
    ap (λ z. (run steps z).sent) (cancelled-cleans x p c)
    ∙ (silent_when_out steps y (not_listed y o) ∙ e)
