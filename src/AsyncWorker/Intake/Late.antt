-- ===== src/AsyncWorker/Intake/Late.antt =====
-- src/spooled/worker/async_worker.py: a claim whose answer comes after `stop()` has closed the
-- intake.
use spooled_sdk_python.Prelude.{
  not, true, false, some, List, [], ◌∷◌, Str, is_set, ◌≡◌, refl, ◌∙◌, ap, if_true, if_false,
}
use spooled_sdk_python.Errors.{ok}
use spooled_sdk_python.Worker.{ClaimedJob}
use spooled_sdk_python.Worker.Prog.{Request, fail}
use spooled_sdk_python.Worker.Settling.{or_empty}
use spooled_sdk_python.Worker.Jobs.{unstarted_claim_error}
use spooled_sdk_python.AsyncWorker.Intake.{
  releasing, resting, Intake, Step, claim_answered, release_answered, sends, releasing_id,
  take_jobs, is_claiming, step, run,
}

-- The `fail` that a job of a late claim gets.
abbrev release_request : Str → ClaimedJob → Request
release_request id j = fail j.id id j.lease_id unstarted_claim_error

abbrev release_requests : Str → List ClaimedJob → List Request
release_requests id [] = []
release_requests id (j ∷ js) = release_request id j ∷ release_requests id js

abbrev pub releases : List ClaimedJob → List Step
releases [] = []
releases (j ∷ js) = release_answered ∷ releases js

-- The requests of a list of jobs, put before those that were sent, one by one.
unfoldable pub sent_onto : List Request → List Request → List Request
sent_onto [] rs = rs
sent_onto (q ∷ qs) rs = sent_onto qs (q ∷ rs)

take_jobs-closed :
    (j : ClaimedJob) (js : List ClaimedJob) (id : Str) (w : Intake)
    → w.intake_closed ≡ true
    → releasing_id w ≡ some id
    → is_set (some id) ≡ true
    → take_jobs (j ∷ js) w ≡ sends (release_request id j) (record w { start = releasing js })
unfolding take_jobs
take_jobs-closed j js id w c r i =
    if_false _ _ _ (ap not c)
    ∙ (if_true _ _ _ (ap is_set r ∙ i)
        ∙ ap (λ o. sends (release_request (or_empty o) j) (record w { start = releasing js })) r)

-- What the loop over a late claim leaves when every `fail` has been answered.
abbrev pub drained : Str → List ClaimedJob → Intake → Intake
drained id js w = record w {
  claim_inflight = false;
  start = resting;
  sent = sent_onto (release_requests id js) w.sent;
}

released_all :
    (js : List ClaimedJob) (id : Str) (w : Intake)
    → w.intake_closed ≡ true
    → releasing_id w ≡ some id
    → is_set (some id) ≡ true
    → run (releases js) (take_jobs js w) ≡ drained id js w
unfolding run step sent_onto take_jobs releasing_id
released_all [] id w c r i = refl
released_all (j ∷ js) id w c r i =
    ap (run (releases (j ∷ js))) (take_jobs-closed j js id w c r i)
    ∙ released_all js id (sends (release_request id j) (record w { start = releasing js })) c r i

-- Where the answer to a claim comes after `stop()` closed the intake, and an id of the worker is
-- known and not empty, if only the one that it registered with, then none of the claim's jobs is
-- started, each is failed once, in order, with its own lease, and once those are answered `start()`
-- pauses with no claim in flight. No other task moves in between.
pub late_claim_released :
    (js : List ClaimedJob) (id : Str) (w : Intake)
    → is_claiming w.start ≡ true
    → w.intake_closed ≡ true
    → releasing_id w ≡ some id
    → is_set (some id) ≡ true
    → run (claim_answered (ok js) ∷ releases js) w ≡ drained id js w
unfolding run step
late_claim_released js id w a c r i =
    ap (run (releases js)) (if_true _ _ _ a) ∙ released_all js id w c r i
