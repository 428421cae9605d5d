-- ===== src/AsyncWorker/Held.antt =====
-- src/spooled/worker/async_worker.py: whether a job that this worker claimed can be dropped without
-- a word to the server.
use spooled_sdk_python.Prelude.{
  ◌||◌, not, is_set, Option, Bool, true, false, none, some, ◌∷◌, Str, codes, ◌≡◌, refl, arith,
  Bool-cases, if_true, if_false, inl, inr, if◌then◌else◌,
}
use spooled_sdk_python.Errors.{Exn, Result, ok, raised, is_lease_expired, Result-cases}
use spooled_sdk_python.Worker.Prog.{Response}
use spooled_sdk_python.Worker.Settling.{exn_is_conflict}
use spooled_sdk_python.AsyncWorker.{
  Ack, completing, failing, Execution, Caller, in_try, in_except, cleanup_job, Current, lose_lease,
  ack_request, send_ack, sends, ack_job, ack_failed, ack_answered, on_conflict, current, operation,
  of_heartbeat, Place, acking, Stopping, abandoning, emits, acked,
}
use spooled_sdk_python.AsyncWorker.Tasks.{
  beat, beat_answered, beat_failed, cut_off, is_timed, may_beat, on_cancelled, on_reason, timed_out,
}
use spooled_sdk_python.AsyncWorker.Change.{claim-cases}

abbrev pub is_reason : Option Str → Bool
is_reason none = false
is_reason (some r) = true

abbrev pub is_acking : Place → Bool
is_acking (acking late a) = true
is_acking _ = false

abbrev pub is_abandoning : Stopping → Bool
is_abandoning (abandoning a) = true
is_abandoning _ = false

-- The worker has an id, who cancels the task gives a reason or has lost the lease, and who awaits
-- the answer to an ack has claimed the settlement.
abbrev pub IsSteady : Execution → Type 0
IsSteady x =
    (is_set x.worker_id ≡ true)
    × (not x.process_cancel || (x.lease_lost || is_reason x.cancel_reason) ≡ true)
    × (not (is_acking x.process) || x.settled ≡ true)
    × (not (is_abandoning x.stopping) || x.settled ≡ true)

abbrev pub IsAnswered : Execution → Type 0
IsAnswered x = x.settled || x.lease_lost ≡ true

-- And an execution that is not listed any more was settled, or has lost its lease.
abbrev pub IsHeld : Execution → Type 0
IsHeld x = IsSteady x × (x.settled || (x.lease_lost || x.owner) ≡ true)

Held-cleanup_job :
    (who : Caller) (x : Execution) → IsSteady x → IsAnswered x → IsHeld (cleanup_job who x)
unfolding cleanup_job
Held-cleanup_job who x h a = ground (arith, h, a)

Held-sends :
    (who : Caller) (a : Ack) (w : Str) (x : Execution)
    → IsSteady x
    → IsHeld (sends who a (record x { settled = true; sent = ack_request a w x.job ∷ x.sent }))
Held-sends who a w x h = ground (arith, h)

pub Held-if : (b : Bool) (y z : Execution) → IsHeld y → IsHeld z → IsHeld (if b then y else z)
Held-if true y z h k = h
Held-if false y z h k = k

pub Held-path : (x y : Execution) → x ≡ y → IsHeld y → IsHeld x
Held-path x y e h = rw e h

Held-send_ack :
    (who : Caller) (a : Ack) (w : Str) (x : Execution)
    → IsSteady x
    → IsHeld (send_ack who a w (record x { settled = true }))
unfolding send_ack
Held-send_ack who a w x h =
    Held-if x.lease_lost _ _
      (Held-cleanup_job who (record x { settled = true }) (ground (arith, h)) refl)
      (Held-sends who a w x h)

pub Held-ack_job : (who : Caller) (a : Ack) (x : Execution) → IsHeld x → IsHeld (ack_job who a x)
unfolding ack_job
Held-ack_job who a x (s, h) = elim (claim-cases x) [
  | inl (e, r) ↦ rw e (Held-cleanup_job who x s (ground (arith, s, h, r)))
  | inr (w, e, l, t) ↦ rw e (Held-send_ack who a w x s)
]

-- Steady, and settled.
abbrev pub IsSealed : Execution → Type 0
IsSealed x = IsSteady x × (x.settled ≡ true)

Sealed-lose_lease :
    (t : Current) (op : Str) (x : Execution) → IsSealed x → IsSealed (lose_lease t op x)
unfolding lose_lease
Sealed-lose_lease t op x h = ground (arith, h)

Sealed-on_conflict : (a : Ack) (e : Exn) (x : Execution) → IsSealed x → IsSealed (on_conflict a e x)
Sealed-on_conflict (completing v) e x h = ground (arith, h)
Sealed-on_conflict (failing text) e x h = h

Sealed-ack_failed :
    (t : Current) (a : Ack) (e : Exn) (x : Execution) → IsSealed x → IsSealed (ack_failed t a e x)
unfolding ack_failed
Sealed-ack_failed t a e x h = elim (Result-cases (is_lease_expired e)) [
  | inl (true, q) ↦ rw q (Sealed-lose_lease t (operation a) x h)
  | inl (false, q) ↦ rw q (Sealed-on_conflict a e x h)
  | inr (y, q) ↦ rw q h
]

Sealed-if : (b : Bool) (y z : Execution) → IsSealed y → IsSealed z → IsSealed (if b then y else z)
Sealed-if true y z h k = h
Sealed-if false y z h k = k

answered_of : (b l : Bool) → b ≡ true → b || l ≡ true
answered_of b l e = rw e refl

pub Held-sealed : (who : Caller) (x : Execution) → IsSealed x → IsHeld (cleanup_job who x)
Held-sealed who x (s, t) = Held-cleanup_job who x s (answered_of x.settled x.lease_lost t)

pub Held-ack_answered :
    (who : Caller) (a : Ack) (r : Result Response) (x : Execution)
    → IsSealed x
    → IsHeld (ack_answered who a r x)
unfolding ack_answered
Held-ack_answered who a (ok r) x h = Held-sealed who (emits (acked a x.job) x) h
Held-ack_answered who a (raised e) x h =
    Held-sealed who _
      (Sealed-if (exn_is_conflict e) _ _ (Sealed-ack_failed (current who) a e x h) h)

-- A cancellation that was requested has a reason, or the lease is lost.
Held-on_reason :
    (o : Option Str) (x : Execution)
    → IsHeld x
    → x.lease_lost || is_reason o ≡ true
    → IsHeld (on_reason o x)
Held-on_reason none x (s, h) r = Held-cleanup_job in_try x s (ground (arith, r))
Held-on_reason (some reason) x h r = Held-ack_job in_except (failing reason) x h

pub uncancelled : (x : Execution) → IsHeld x → IsHeld (record x { process_cancel = false })
uncancelled x h = ground (arith, h)

pub Held-on_cancelled :
    (x : Execution) → IsHeld x → x.process_cancel ≡ true → IsHeld (on_cancelled x)
unfolding on_cancelled
Held-on_cancelled x h c = elim (Bool-cases x.lease_lost) [
  | inl l ↦ Held-path _ _ (if_true _ _ _ l) (
      Held-cleanup_job in_try (record x { process_cancel = false }) (uncancelled x h).0
        (ground (arith, l)))
  | inr l ↦ Held-path _ _ (if_false _ _ _ l) (
      Held-on_reason x.cancel_reason (record x { process_cancel = false }) (uncancelled x h)
        (ground (arith, h, c)))
]

-- The ends of the handler.
pub Held-cut_off :
    (a : Ack) (x : Execution)
    → IsHeld x
    → IsHeld (
        if cut_off x
        then on_cancelled x
        else ack_job in_try a (record x { process_cancel = false }))
Held-cut_off a x h = elim (Bool-cases (cut_off x)) [
  | inl c ↦ Held-path _ _ (if_true _ _ _ c) (Held-on_cancelled x h (ground (arith, c)))
  | inr c ↦
      Held-path _ _ (if_false _ _ _ c)
        (Held-ack_job in_try a (record x { process_cancel = false }) (uncancelled x h))
]

pub Held-timed_out : (x : Execution) → IsHeld x → IsHeld (timed_out x)
unfolding timed_out
Held-timed_out x h =
    Held-if (not (is_timed x.job.timeout_seconds)) _ _ h (elim (Bool-cases x.process_cancel) [
      | inl c ↦ Held-path _ _ (if_true _ _ _ c) (Held-on_cancelled x h c)
      | inr c ↦ Held-path _ _ (if_false _ _ _ c) (
          Held-ack_job in_except (failing (codes "Job timeout exceeded"))
            (record x { abort = true }) h)
    ])

pub Held-beat : (x : Execution) → IsHeld x → IsHeld (beat x)
unfolding beat
Held-beat x h = Held-if x.heartbeat_cancel _ _ h (Held-if (may_beat x) _ _ h h)

Held-lose_lease : (t : Current) (op : Str) (x : Execution) → IsHeld x → IsHeld (lose_lease t op x)
unfolding lose_lease
Held-lose_lease t op x h = ground (arith, h)

pub Held-beat_answered :
    (r : Result Response) (x : Execution) → IsHeld x → IsHeld (beat_answered r x)
unfolding beat_answered beat_failed
Held-beat_answered (ok r) x h = h
Held-beat_answered (raised e) x h = elim (Result-cases (is_lease_expired e)) [
  | inl (true, q) ↦ rw q (Held-lose_lease of_heartbeat (codes "heartbeat") x h)
  | inl (false, q) ↦ rw q h
  | inr (y, q) ↦ rw q h
]

-- Who asks to ack leaves an execution that is settled, or has lost its lease.
Answered-cleanup_job :
    (who : Caller) (x : Execution) → IsAnswered x → IsAnswered (cleanup_job who x)
unfolding cleanup_job
Answered-cleanup_job who x h = ground (arith, h)

Answered-send_ack :
    (who : Caller) (a : Ack) (w : Str) (x : Execution)
    → IsAnswered (send_ack who a w (record x { settled = true }))
unfolding send_ack cleanup_job
Answered-send_ack who a w x = ground arith

pub Answered-ack_job :
    (who : Caller) (a : Ack) (x : Execution) → IsHeld x → IsAnswered (ack_job who a x)
unfolding ack_job
Answered-ack_job who a x (s, h) = elim (claim-cases x) [
  | inl (e, r) ↦ rw e (Answered-cleanup_job who x (ground (arith, s, h, r)))
  | inr (w, e, l, t) ↦ rw e (Answered-send_ack who a w x)
]
