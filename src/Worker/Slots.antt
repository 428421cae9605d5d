-- ===== src/Worker/Slots.antt =====
-- src/spooled/worker/worker.py: what holds of the worker between any two steps of its threads.
use spooled_sdk_python.Prelude.{
  ℕ, zero, suc, ◌+◌, Bool, true, false, none, some, List, [], ◌∷◌, ◌++◌, ◌≡◌, refl, sym, ◌∙◌, arith,
  Option-cases, inl, inr, length,
}
use spooled_sdk_python.Worker.{
  ClaimedJob, ActiveJob, Worker, new_active_job, find_exec, modify_exec, flag,
}
use spooled_sdk_python.Worker.Locked.{
  settle, set_abort, abandon, cleanup, lose, arm_timeout, arm_heartbeat, take_in, begin_poll,
  end_poll, drop_job, mark_abandoned, cancel_timers, free_slot, is_abandoned,
}
use spooled_sdk_python.Worker.Section.{
  Section, settles, aborts, abandons, cleans, loses, arms_timeout, arms_heartbeat, takes,
  begins_poll, begins_start, begins_stop, apply, begin_start, begin_stop, arms,
}
use spooled_sdk_python.Worker.Prog.{World, Schedule, Task, Prog, run}
use spooled_sdk_python.Worker.Runs.{run-P}

abbrev pub one_if : Bool → ℕ
one_if true = 1
one_if false = 0

-- The executions that were given up while their handler still runs.
abbrev pub count_abandoned : List ActiveJob → ℕ
count_abandoned [] = 0
count_abandoned (x ∷ xs) = one_if x.abandoned + count_abandoned xs

-- The counter says how many handlers run on after their job was given up.
abbrev pub IsCounted : Worker → Type 0
IsCounted w = w.abandoned_running ≡ count_abandoned w.execs

count-modify :
    (b : ℕ) (f : ActiveJob → ActiveJob) (xs : List ActiveJob)
    → ((x : ActiveJob) → (f x).abandoned ≡ x.abandoned)
    → count_abandoned (modify_exec b f xs) ≡ count_abandoned xs
unfolding modify_exec
count-modify b f [] h = refl
count-modify zero f (x ∷ xs) h = rw (h x)
count-modify (suc b) f (x ∷ xs) h = rw (count-modify b f xs h)

count-mark :
    (b : ℕ) (xs : List ActiveJob) {x : ActiveJob}
    → find_exec b xs ≡ some x
    → x.abandoned ≡ false
    → count_abandoned (modify_exec b (λ y. record y { abandoned = true }) xs)
      ≡ count_abandoned xs + 1
unfolding modify_exec find_exec
count-mark b [] e h = cc
count-mark zero (y ∷ xs) e h = ground arith
count-mark (suc b) (y ∷ xs) e h = omega (arith, count-mark b xs e h)

count-free :
    (b : ℕ) (xs : List ActiveJob)
    → flag (λ x. x.abandoned) (find_exec b xs) ≡ true
    → count_abandoned (modify_exec b (λ y. record y { abandoned = false }) xs) + 1
      ≡ count_abandoned xs
unfolding modify_exec find_exec
count-free b [] h = cc
count-free zero (y ∷ xs) h = ground arith
count-free (suc b) (y ∷ xs) h = omega (arith, count-free b xs h)

count-append :
    (xs : List ActiveJob) (j : ClaimedJob)
    → count_abandoned (xs ++ new_active_job j ∷ []) ≡ count_abandoned xs
unfolding new_active_job
count-append [] j = refl
count-append (x ∷ xs) j = rw (count-append xs j)

IsCounted-drop_job : (b : ℕ) (w : Worker) → IsCounted w → IsCounted (drop_job b w)
unfolding drop_job
IsCounted-drop_job b w h = ground arith

IsCounted-mark_abandoned : (b : ℕ) (w : Worker) → IsCounted w → IsCounted (mark_abandoned b w)
unfolding mark_abandoned
IsCounted-mark_abandoned b w h = elim (Option-cases (find_exec b w.execs)) [
  | inl e ↦ ground (arith, e)
  | inr (x, e) ↦ ground (arith, e, count-mark b w.execs e)
]

IsCounted-free_slot : (b : ℕ) (w : Worker) → IsCounted w → IsCounted (free_slot b w)
unfolding free_slot is_abandoned
IsCounted-free_slot b w h = ground (arith, count-free b w.execs)

IsCounted-cancel_timers : (b : ℕ) (w : Worker) → IsCounted w → IsCounted (cancel_timers b w)
unfolding cancel_timers
IsCounted-cancel_timers b w h = h

IsCounted-abandon : (b : ℕ) (w : Worker) → IsCounted w → IsCounted (abandon b w)
unfolding abandon
IsCounted-abandon b w h =
    IsCounted-cancel_timers b (mark_abandoned b (drop_job b w))
      (IsCounted-mark_abandoned b (drop_job b w) (IsCounted-drop_job b w h))

IsCounted-cleanup : (b : ℕ) (w : Worker) → IsCounted w → IsCounted (cleanup b w)
unfolding cleanup
IsCounted-cleanup b w h =
    IsCounted-cancel_timers b (free_slot b (drop_job b w))
      (IsCounted-free_slot b (drop_job b w) (IsCounted-drop_job b w h))

IsCounted-modify :
    (b : ℕ) (f : ActiveJob → ActiveJob) (w : Worker)
    → ((x : ActiveJob) → (f x).abandoned ≡ x.abandoned)
    → IsCounted w
    → w.abandoned_running ≡ count_abandoned (modify_exec b f w.execs)
IsCounted-modify b f w h c = c ∙ sym (count-modify b f w.execs h)

IsCounted-settle : (b : ℕ) (w : Worker) → IsCounted w → IsCounted (settle b w)
unfolding settle
IsCounted-settle b w h =
    ground (arith, IsCounted-modify b (λ x. record x { settled = true }) w (λ x. refl) h)

IsCounted-lose : (b : ℕ) (w : Worker) → IsCounted w → IsCounted (lose b w)
unfolding lose
IsCounted-lose b w h = ground (
  arith,
  IsCounted-modify b
      (λ x. record x { lease_lost = true; heartbeat_timer = none; timeout_timer = none }) w
      (λ x. refl) h,
)

IsCounted-arm_timeout : (b : ℕ) (w : Worker) → IsCounted w → IsCounted (arm_timeout b w)
unfolding arm_timeout
IsCounted-arm_timeout b w h = ground (
  arith,
  IsCounted-modify b (λ x. record x { timeout_timer = some (length w.timers) }) w (λ x. refl) h,
)

IsCounted-arm_heartbeat :
    (on : Bool) (b : ℕ) (w : Worker) → IsCounted w → IsCounted (arm_heartbeat on b w)
unfolding arm_heartbeat
IsCounted-arm_heartbeat false b w h = h
IsCounted-arm_heartbeat true b w h = IsCounted-modify b _ w (λ x. refl) h

IsCounted-take_in : (j : ClaimedJob) (w : Worker) → IsCounted w → IsCounted (take_in j w)
unfolding take_in
IsCounted-take_in j w h = ground (arith, count-append w.execs j)

IsCounted-apply : (f : Section) (w : Worker) → IsCounted w → IsCounted (apply f w)
unfolding apply set_abort begin_poll end_poll begin_start begin_stop
IsCounted-apply (settles b) w h = IsCounted-settle b w h
IsCounted-apply (aborts b) w h = IsCounted-modify b _ w (λ x. refl) h
IsCounted-apply (abandons b) w h = IsCounted-abandon b w h
IsCounted-apply (cleans b) w h = IsCounted-cleanup b w h
IsCounted-apply (loses b) w h = IsCounted-lose b w h
IsCounted-apply (arms_timeout b) w h = IsCounted-arm_timeout b w h
IsCounted-apply (arms_heartbeat first b) w h = IsCounted-arm_heartbeat (arms first b w) b w h
IsCounted-apply (takes j) w h = IsCounted-take_in j w h
IsCounted-apply (begins_poll me) w h = ground arith
IsCounted-apply begins_start w h = ground arith
IsCounted-apply begins_stop w h = ground arith
IsCounted-apply f w h = h

-- Whatever the threads do, `_abandoned_running`, which a poll subtracts from the slots, stays exactly
-- the number of executions whose `abandoned` flag is set: no section sets or clears the flag without
-- the counter.
pub run-IsCounted :
    (body : Task → Prog) (sched : Schedule) (s : World)
    → IsCounted s.worker
    → IsCounted (run body sched s).worker
run-IsCounted body sched s h = run-P IsCounted IsCounted-apply body sched s h
