-- ===== src/AsyncWorker/Change.antt =====
-- src/spooled/worker/async_worker.py: what one step may change of what was sent for an execution.
pub mod Steps
use spooled_sdk_python.Prelude.{
  ℕ, ◌+◌, ◌||◌, ◌&&◌, not, is_set, Option, Option-cases, ◌⊎◌, Bool, true, false, none, some, List,
  [], ◌∷◌, Str, codes, ◌≡◌, refl, ◌∙◌, ap, arith, Bool-cases, if_true, if_false, inl, inr,
  if◌then◌else◌,
}
use spooled_sdk_python.Json.{Value}
use spooled_sdk_python.Errors.{Exn, Result, ok, raised, is_lease_expired}
use spooled_sdk_python.Worker.Prog.{Request, complete, fail, Response}
use spooled_sdk_python.Worker.Settling.{exn_is_conflict}
use spooled_sdk_python.Worker.Slots.{one_if}
use spooled_sdk_python.AsyncWorker.{
  Ack, completing, failing, Beat, ended, Execution, Caller, in_try, in_except, in_stop, cleanup_job,
  Current, lose_lease, on_expired, ack_request, send_ack, sends, claim_settlement, ack_job,
  ack_failed, ack_answered, on_conflict, current, operation, of_heartbeat, Place, unstarted,
  handling, acking, joining, over, Stopping, idle, abandoning, awaiting, through, broken, is_over,
  is_live, is_done, after_join,
}
use spooled_sdk_python.AsyncWorker.Tasks.{
  Step, process_runs, handler_returns, handler_raises, handler_unwinds, handler_swallows,
  handler_cancels, timeout_elapses, process_answered, process_joined, heartbeat_wakes,
  heartbeat_answered, heartbeat_unwinds, stop_signals, stop_abandons, stop_answered, stop_joined,
  replaced, unregistered, process_cancelled, abandon_job, answer_ack, answer_at, answer_stop, beat,
  beat_answered, beat_failed, cut_off, handler_raised, handler_returned, is_awaiting, is_beating,
  is_handling, is_idle, is_joining, is_sleeping, is_timed, is_unstarted, may_beat, on_cancelled,
  on_reason, process_job, signal_stop, step, swallowed, timed_out, begin_beat,
}

abbrev pub is_ack : Request → Bool
is_ack (complete j w l v) = true
is_ack (fail j w l e) = true
is_ack _ = false

-- How many requests settle the job.
abbrev pub acks : List Request → ℕ
acks [] = 0
acks (r ∷ rs) = one_if (is_ack r) + acks rs

-- The lease is lost, or the execution is not the listed one of its job.
abbrev pub is_out : Execution → Bool
is_out x = x.lease_lost || not x.owner

-- Nothing was sent, and an execution that is out stays out.
abbrev pub Quiet : Execution → Execution → Type 0
Quiet x y = (y.sent ≡ x.sent) × (y.settled ≡ x.settled) × (not (is_out x) || is_out y ≡ true)

-- What one step may do: nothing of this, or one request of an execution that is not out and not
-- settled; an ack settles it.
abbrev pub Change : Execution → Execution → Type 0
Change x y =
    Quiet x y
    ⊎ ((r : Request) × (y.sent ≡ r ∷ x.sent)
        × (is_out x ≡ false)
        × (x.settled ≡ false)
        × (y.settled ≡ is_ack r))

Quiet-if : (b : Bool) (x y z : Execution) → Quiet x y → Quiet x z → Quiet x (if b then y else z)
Quiet-if true x y z h k = h
Quiet-if false x y z h k = k

not_or : (b : Bool) → not b || b ≡ true
not_or true = refl
not_or false = refl

pub Quiet-refl : (x : Execution) → Quiet x x
Quiet-refl x = (refl, refl, not_or (is_out x))

pub Quiet-cleanup_job : (who : Caller) (x y : Execution) → Quiet x y → Quiet x (cleanup_job who y)
unfolding cleanup_job
Quiet-cleanup_job who x y h = ground (arith, h)

pub Quiet-lose_lease :
    (t : Current) (op : Str) (x y : Execution) → Quiet x y → Quiet x (lose_lease t op y)
unfolding lose_lease
Quiet-lose_lease t op x y h = ground (arith, h)

claimed :
    (x : Execution)
    → (x.lease_lost || (x.settled || not x.owner)) ≡ false
    → is_set x.worker_id ≡ true
    → ((claim_settlement x ≡ (none, x))
        × ((x.lease_lost || (x.settled || not x.owner)) || not (is_set x.worker_id) ≡ true))
      ⊎ ((w : Str) × (claim_settlement x ≡ (some w, record x { settled = true }))
          × (is_out x ≡ false)
          × (x.settled ≡ false))
unfolding claim_settlement
claimed x e i = elim (Option-cases x.worker_id) [
  | inl n ↦ cc
  | inr (w, n) ↦ inr (
    w,
    if_false _ _ _ e ∙ (if_true _ _ _ i ∙ ap (λ o. (o, record x { settled = true })) n),
    ground (arith, e),
    ground (arith, e),
  )
]

-- `_claim_settlement` gives nothing to an execution that is settled, has lost its lease, is not the
-- listed one, or where the worker has no id.
pub claim-cases :
    (x : Execution)
    → ((claim_settlement x ≡ (none, x))
        × ((x.lease_lost || (x.settled || not x.owner)) || not (is_set x.worker_id) ≡ true))
      ⊎ ((w : Str) × (claim_settlement x ≡ (some w, record x { settled = true }))
          × (is_out x ≡ false)
          × (x.settled ≡ false))
unfolding claim_settlement
claim-cases x = elim (Bool-cases (x.lease_lost || (x.settled || not x.owner))) [
  | inl e ↦ inl (rw e refl, rw e refl)
  | inr e ↦ elim (Bool-cases (is_set x.worker_id)) [
    | inr i ↦ inl (simp (e, i) refl, simp (e, i) refl)
    | inl i ↦ claimed x e i
  ]
]

pub Change-path : (x y z : Execution) → y ≡ z → Change x z → Change x y
Change-path x y z e h = rw e h

sent-Change :
    (who : Caller) (a : Ack) (w : Str) (x : Execution)
    → is_out x ≡ false
    → x.settled ≡ false
    → Change x (sends who a (record x { settled = true; sent = ack_request a w x.job ∷ x.sent }))
unfolding ack_request
sent-Change in_try (completing v) w x l s = inr (_, refl, l, s, refl)
sent-Change in_try (failing v) w x l s = inr (_, refl, l, s, refl)
sent-Change in_except (completing v) w x l s = inr (_, refl, l, s, refl)
sent-Change in_except (failing v) w x l s = inr (_, refl, l, s, refl)
sent-Change in_stop (completing v) w x l s = inr (_, refl, l, s, refl)
sent-Change in_stop (failing v) w x l s = inr (_, refl, l, s, refl)

kept : (x : Execution) → is_out x ≡ false → x.lease_lost ≡ false
kept x h = ground (arith, h)

Change-send_ack :
    (who : Caller) (a : Ack) (w : Str) (x : Execution)
    → is_out x ≡ false
    → x.settled ≡ false
    → Change x (send_ack who a w (record x { settled = true }))
unfolding send_ack
Change-send_ack who a w x l s =
    Change-path x _ _ (if_false _ _ _ (kept x l)) (sent-Change who a w x l s)

pub Change-ack_job : (who : Caller) (a : Ack) (x : Execution) → Change x (ack_job who a x)
unfolding ack_job
Change-ack_job who a x = elim (claim-cases x) [
  | inl (e, r) ↦ rw e (inl (Quiet-cleanup_job who x x (Quiet-refl x)))
  | inr (w, e, l, s) ↦ rw e (Change-send_ack who a w x l s)
]

Quiet-on_conflict : (a : Ack) (e : Exn) (x : Execution) → Quiet x (on_conflict a e x)
Quiet-on_conflict (completing v) e x = ground arith
Quiet-on_conflict (failing text) e x = ground arith

pub Quiet-on_expired :
    (r : Result Bool) (x a b c : Execution)
    → Quiet x a
    → Quiet x b
    → Quiet x c
    → Quiet x (on_expired r a b c)
Quiet-on_expired (ok true) x a b c h k l = h
Quiet-on_expired (ok false) x a b c h k l = k
Quiet-on_expired (raised e) x a b c h k l = l

Quiet-ack_failed : (t : Current) (a : Ack) (e : Exn) (x : Execution) → Quiet x (ack_failed t a e x)
unfolding ack_failed
Quiet-ack_failed t a e x =
    Quiet-on_expired (is_lease_expired e) x _ _ _
      (Quiet-lose_lease t (operation a) x x (Quiet-refl x)) (Quiet-on_conflict a e x) (Quiet-refl x)

pub Quiet-ack_answered :
    (who : Caller) (a : Ack) (r : Result Response) (x : Execution)
    → Quiet x (ack_answered who a r x)
unfolding ack_answered
Quiet-ack_answered who a (ok r) x = Quiet-cleanup_job who x _ (Quiet-refl x)
Quiet-ack_answered who a (raised e) x =
    Quiet-cleanup_job who x _
      (Quiet-if (exn_is_conflict e) x _ _ (Quiet-ack_failed (current who) a e x) (Quiet-refl x))
