-- ===== src/AsyncWorker/Dropped.antt =====
-- src/spooled/worker/async_worker.py: no job that this worker claimed is dropped without a word to
-- the server.
use spooled_sdk_python.Prelude.{
  ℕ, ◌||◌, ◌&&◌, not, is_set, ◌⊎◌, Bool, true, false, some, List, [], ◌∷◌, ◌++◌, Str, codes, ◌≡◌,
  refl, ap, arith, Bool-cases, if_true, if_false, inl, inr, if◌then◌else◌,
}
use spooled_sdk_python.Errors.{Result}
use spooled_sdk_python.Worker.{ClaimedJob}
use spooled_sdk_python.Worker.Prog.{Response}
use spooled_sdk_python.Worker.Slots.{one_if}
use spooled_sdk_python.AsyncWorker.{
  Ack, completing, failing, Beat, Execution, Caller, in_try, in_except, in_stop, register_job,
  Place, unstarted, handling, acking, joining, over, Stopping, idle, abandoning, awaiting, through,
  broken, is_live, is_done, after_join,
}
use spooled_sdk_python.AsyncWorker.Tasks.{
  Step, process_runs, handler_returns, handler_raises, handler_unwinds, handler_swallows,
  handler_cancels, timeout_elapses, process_answered, process_joined, heartbeat_wakes,
  heartbeat_answered, heartbeat_unwinds, stop_signals, stop_abandons, stop_answered, stop_joined,
  replaced, unregistered, process_cancelled, abandon_job, answer_ack, answer_at, answer_stop,
  handler_raised, handler_returned, is_awaiting, is_beating, is_handling, is_idle, is_joining,
  is_sleeping, is_timed, is_unstarted, process_job, run, signal_stop, step, swallowed,
}
use spooled_sdk_python.AsyncWorker.Change.{acks}
use spooled_sdk_python.AsyncWorker.Held.{
  Answered-ack_job, Held-ack_answered, Held-ack_job, Held-beat, Held-beat_answered, Held-cut_off,
  Held-if, Held-on_cancelled, Held-path, Held-sealed, Held-timed_out, IsAnswered, IsHeld,
  is_abandoning, is_acking, uncancelled,
}
use spooled_sdk_python.AsyncWorker.Acks.{acks_settled}

-- The answer to an ack finds the execution settled.
Held-answer_ack :
    (late : Bool) (a : Ack) (r : Result Response) (x : Execution)
    → IsHeld x
    → x.settled ≡ true
    → IsHeld (answer_ack late a r x)
Held-answer_ack false a r x h t = elim (Bool-cases x.process_cancel) [
  | inl c ↦ Held-path _ _ (if_true _ _ _ c) (Held-on_cancelled x h c)
  | inr c ↦ Held-path _ _ (if_false _ _ _ c) (Held-ack_answered in_try a r x (h.0, t))
]
Held-answer_ack true a r x h t =
    Held-if x.process_cancel _ _
      (Held-sealed in_except (record x { process_cancel = false }) ((uncancelled x h).0, t))
      (Held-ack_answered in_except a r x (h.0, t))

Held-answer_at :
    (p : Place) (r : Result Response) (x : Execution)
    → IsHeld x
    → not (is_acking p) || x.settled ≡ true
    → IsHeld (answer_at p r x)
Held-answer_at (acking late a) r x h t = Held-answer_ack late a r x h t
Held-answer_at unstarted r x h t = h
Held-answer_at handling r x h t = h
Held-answer_at joining r x h t = h
Held-answer_at over r x h t = h

Held-answer_stop :
    (p : Stopping) (r : Result Response) (x : Execution)
    → IsHeld x
    → not (is_abandoning p) || x.settled ≡ true
    → IsHeld (answer_stop p r x)
Held-answer_stop (abandoning a) r x h t = Held-ack_answered in_stop a r x (h.0, t)
Held-answer_stop idle r x h t = h
Held-answer_stop awaiting r x h t = h
Held-answer_stop through r x h t = h
Held-answer_stop broken r x h t = h

Held-after_join : (who : Caller) (b : Beat) (x : Execution) → IsHeld x → IsHeld (after_join who b x)
Held-after_join who b x h = ground (arith, h)

Held-process_job : (x : Execution) → IsHeld x → IsHeld (process_job x)
unfolding process_job
Held-process_job x h = ground (arith, h)

Held-signal_stop : (x : Execution) → IsHeld x → IsHeld (signal_stop x)
unfolding signal_stop
Held-signal_stop x h = ground (arith, h)

Held-swallowed : (x : Execution) → IsHeld x → IsHeld (swallowed x)
unfolding swallowed
Held-swallowed x h = Held-if (is_timed x.job.timeout_seconds) _ _ h (uncancelled x h)

-- The steps of the worker's own code on an execution that is the only one of its job, while the
-- worker is registered: nobody else cancels the task, and the handler raises no CancelledError of
-- its own.
unfoldable pub is_own : Step → Bool
is_own handler_cancels = false
is_own replaced = false
is_own unregistered = false
is_own process_cancelled = false
is_own _ = true

unfoldable pub all_own : List Step → Bool
all_own [] = true
all_own (s ∷ rest) = is_own s && all_own rest

Held-when :
    (b : Bool) (x y : Execution) → IsHeld x → (b ≡ true → IsHeld y) → IsHeld (if b then y else x)
Held-when true x y h k = k refl
Held-when false x y h k = h

Held-step : (s : Step) (x : Execution) → is_own s ≡ true → IsHeld x → IsHeld (step s x)
unfolding step is_own handler_returned handler_raised abandon_job
Held-step process_runs x o h = Held-when (is_unstarted x.process) x _ h (λ b. Held-process_job x h)
Held-step (handler_returns v) x o h =
    Held-when (is_handling x.process) x _ h (λ b. Held-cut_off (completing v) x h)
Held-step (handler_raises text) x o h =
    Held-when (is_handling x.process) x _ h (λ b. Held-cut_off (failing text) x h)
Held-step handler_unwinds x o h =
    Held-when (x.process_cancel && is_handling x.process) x _ h
      (λ b. Held-on_cancelled x h (ground (arith, b)))
Held-step handler_swallows x o h = Held-when (is_handling x.process) x _ h (λ b. Held-swallowed x h)
Held-step handler_cancels x o h = cc
Held-step timeout_elapses x o h = Held-when (is_handling x.process) x _ h (λ b. Held-timed_out x h)
Held-step (process_answered r) x o h = Held-answer_at x.process r x h h.0.2
Held-step process_joined x o h =
    Held-when (is_joining x.process && is_done x.heartbeat) x _ h
      (λ b. Held-after_join in_try x.heartbeat x h)
Held-step heartbeat_wakes x o h = Held-when (is_sleeping x.heartbeat) x _ h (λ b. Held-beat x h)
Held-step (heartbeat_answered r) x o h =
    Held-when (not x.heartbeat_cancel && is_beating x.heartbeat) x _ h
      (λ b. Held-beat_answered r x h)
Held-step heartbeat_unwinds x o h =
    Held-when (x.heartbeat_cancel && is_live x.heartbeat) x _ h (λ b. h)
Held-step stop_signals x o h = Held-signal_stop x h
Held-step stop_abandons x o h = Held-when (is_idle x.stopping) x _ h (λ b.
    Held-ack_job in_stop (failing (codes "Worker shutdown timeout")) (record x { abort = true }) h)
Held-step (stop_answered r) x o h = Held-answer_stop x.stopping r x h h.0.3
Held-step stop_joined x o h =
    Held-when (is_awaiting x.stopping && is_done x.heartbeat) x _ h
      (λ b. Held-after_join in_stop x.heartbeat x h)
Held-step replaced x o h = cc
Held-step unregistered x o h = cc
Held-step process_cancelled x o h = cc

Held-run :
    (steps : List Step) (x : Execution) → all_own steps ≡ true → IsHeld x → IsHeld (run steps x)
unfolding run all_own
Held-run [] x o h = h
Held-run (s ∷ rest) x o h =
    Held-run rest (step s x) (ground (arith, o)) (Held-step s x (ground (arith, o)) h)

acked_of : (n : ℕ) (s l : Bool) → n ≡ one_if s → s || l ≡ true → (n ≡ 1) ⊎ (l ≡ true)
acked_of n true l e h = inl e
acked_of n false l e h = inr h

-- Where the worker stays registered under an id that is not empty, the execution is the only one of
-- its job, nobody but the worker cancels it and its handler raises no CancelledError of its own: an
-- execution that is no longer among the active jobs has sent exactly one `complete` or `fail`, or
-- its lease was lost.
pub delisted_acked :
    (steps : List Step) (j : ClaimedJob) (n : ℕ) (w : Str)
    → is_set (some w) ≡ true
    → all_own steps ≡ true
    → (run steps (register_job j n w)).owner ≡ false
    → (acks (run steps (register_job j n w)).sent ≡ 1)
      ⊎ ((run steps (register_job j n w)).lease_lost ≡ true)
unfolding register_job
delisted_acked steps j n w i o d =
    let h = Held-run steps (register_job j n w) o ((i, refl, refl, refl), refl) in
    acked_of _ _ _ (acks_settled steps j n w) (ground (arith, h, d))

all_own-snoc :
    (steps : List Step) (s : Step)
    → all_own steps ≡ true
    → is_own s ≡ true
    → all_own (steps ++ s ∷ []) ≡ true
unfolding all_own
all_own-snoc [] s h k = rw k refl
all_own-snoc (t ∷ rest) s h k = ground (arith, h, all_own-snoc rest s (ground (arith, h)) k)

run-snoc :
    (steps : List Step) (s : Step) (x : Execution) → run (steps ++ s ∷ []) x ≡ step s (run steps x)
unfolding run
run-snoc [] s x = refl
run-snoc (t ∷ rest) s x = run-snoc rest s (step t x)

Answered-path : (x y : Execution) → x ≡ y → IsAnswered y → IsAnswered x
Answered-path x y e h = rw e h

Answered-abandons :
    (x : Execution) → IsHeld x → x.stopping ≡ idle → IsAnswered (step stop_abandons x)
unfolding step abandon_job
Answered-abandons x h e = Answered-path _ _ (if_true _ _ _ (ap is_idle e)) (
    Answered-ack_job in_stop (failing (codes "Worker shutdown timeout")) (record x { abort = true })
      h)

-- Where the worker stays registered under an id that is not empty, the execution is the only one of
-- its job, nobody but the worker cancels it and its handler raises no CancelledError of its own:
-- wherever the execution stands when `stop()` comes to abandon it, whether its handler never began,
-- swallowed its cancellation, is still in its ack or is done, once `stop()` has gone on to its next
-- await exactly one `complete` or `fail` was sent for the job, or its lease was lost.
pub abandoned_acked :
    (steps : List Step) (j : ClaimedJob) (n : ℕ) (w : Str)
    → is_set (some w) ≡ true
    → all_own steps ≡ true
    → (run steps (register_job j n w)).stopping ≡ idle
    → (acks (run (steps ++ stop_abandons ∷ []) (register_job j n w)).sent ≡ 1)
      ⊎ ((run (steps ++ stop_abandons ∷ []) (register_job j n w)).lease_lost ≡ true)
unfolding register_job
abandoned_acked steps j n w i o d =
    let h = Held-run steps (register_job j n w) o ((i, refl, refl, refl), refl) in
    acked_of _ _ _ (acks_settled (steps ++ stop_abandons ∷ []) j n w)
      (rw (run-snoc steps stop_abandons (register_job j n w)) (Answered-abandons _ h d))
