-- ===== src/Worker/Acks/Store.antt =====
-- src/spooled/worker/worker.py: how each section under the lock changes the `settled` flags. Only
-- `_claim_settlement` sets one, and nothing clears one.
use spooled_sdk_python.Prelude.{
  ℕ, zero, suc, ◌==◌, Bool, true, false, ◌&&◌, ◌||◌, none, some, List, [], ◌∷◌, ◌++◌, Str, ◌≡◌, inl,
  inr, refl, arith, Bool-cases, is_some, length,
}
use spooled_sdk_python.Worker.{
  ClaimedJob, ActiveJob, Worker, new_active_job, find_exec, modify_exec, is_settled, owns, flag,
}
use spooled_sdk_python.Worker.Section.{
  Section, settles, aborts, abandons, cleans, loses, arms_timeout, arms_heartbeat, takes,
  begins_poll, ends_poll, begins_start, begins_stop, apply, begin_start, begin_stop, arms,
}
use spooled_sdk_python.Worker.Locked.{
  settlement, settle, set_abort, abandon, cleanup, lose, arm_timeout, arm_heartbeat, take_in,
  begin_poll, end_poll, drop_job, mark_abandoned, cancel_timers, free_slot,
}

abbrev settled_in : ℕ → List ActiveJob → Bool
settled_in a xs = flag (λ x. x.settled) (find_exec a xs)

settled-modify :
    (a b : ℕ) (f : ActiveJob → ActiveJob) (xs : List ActiveJob)
    → ((x : ActiveJob) → (f x).settled ≡ x.settled)
    → settled_in a (modify_exec b f xs) ≡ settled_in a xs
unfolding find_exec modify_exec
settled-modify a b f [] h = refl
settled-modify zero zero f (x ∷ xs) h = h x
settled-modify zero (suc b) f (x ∷ xs) h = refl
settled-modify (suc a) zero f (x ∷ xs) h = refl
settled-modify (suc a) (suc b) f (x ∷ xs) h = settled-modify a b f xs h

settled-append :
    (a : ℕ) (xs : List ActiveJob) (j : ClaimedJob)
    → settled_in a (xs ++ new_active_job j ∷ []) ≡ settled_in a xs
unfolding find_exec new_active_job
settled-append zero [] j = refl
settled-append (suc a) [] j = refl
settled-append zero (x ∷ xs) j = refl
settled-append (suc a) (x ∷ xs) j = settled-append a xs j

abbrev mark : ActiveJob → ActiveJob
mark x = record x { settled = true }

settled-mark :
    (a b : ℕ) (xs : List ActiveJob)
    → settled_in b xs ≡ false
    → is_some (find_exec b xs) ≡ true
    → settled_in a (modify_exec b mark xs) ≡ (settled_in a xs || a == b)
unfolding find_exec modify_exec
settled-mark a b [] h k = cc
settled-mark zero zero (x ∷ xs) h k = ground arith
settled-mark zero (suc b) (x ∷ xs) h k = ground arith
settled-mark (suc a) zero (x ∷ xs) h k = ground arith
settled-mark (suc a) (suc b) (x ∷ xs) h k = ground (arith, settled-mark a b xs h k)

settlement-facts :
    (b : ℕ) (w : Worker)
    → is_some (settlement b w) ≡ true
    → (settled_in b w.execs ≡ false) × (is_some (find_exec b w.execs) ≡ true)
unfolding settlement is_settled owns
settlement-facts b w h = ground arith

-- The claim of the right to ack sets the flag of that execution, which was clear.
pub is_settled-settle :
    (a b : ℕ) (w : Worker)
    → is_settled a (settle b w) ≡ (is_settled a w || (a == b && is_some (settlement b w)))
unfolding is_settled settle
is_settled-settle a b w = elim (Bool-cases (is_some (settlement b w))) [
  | inr refused ↦ ground (arith, refused)
  | inl taken ↦
      let (clear, there) = settlement-facts b w taken in
      ground (arith, taken, settled-mark a b w.execs clear there)
]

pub settlement-settled :
    (b : ℕ) (w : Worker) {id : Str} → settlement b w ≡ some id → is_settled b w ≡ false
unfolding settlement
settlement-settled b w h = ground arith

-- The other sections leave every flag as it is.
is_settled-set_abort : (a b : ℕ) (w : Worker) → is_settled a (set_abort b w) ≡ is_settled a w
unfolding is_settled set_abort
is_settled-set_abort a b w = settled-modify a b _ w.execs (λ x. refl)

is_settled-lose : (a b : ℕ) (w : Worker) → is_settled a (lose b w) ≡ is_settled a w
unfolding is_settled lose
is_settled-lose a b w = ground (
  arith,
  settled-modify a b
      (λ x. record x { lease_lost = true; heartbeat_timer = none; timeout_timer = none }) w.execs
      (λ x. refl),
)

is_settled-arm_timeout : (a b : ℕ) (w : Worker) → is_settled a (arm_timeout b w) ≡ is_settled a w
unfolding is_settled arm_timeout
is_settled-arm_timeout a b w = ground (
  arith,
  settled-modify a b (λ x. record x { timeout_timer = some (length w.timers) }) w.execs (λ x. refl),
)

is_settled-arm_heartbeat :
    (on : Bool) (a b : ℕ) (w : Worker) → is_settled a (arm_heartbeat on b w) ≡ is_settled a w
unfolding is_settled arm_heartbeat
is_settled-arm_heartbeat false a b w = refl
is_settled-arm_heartbeat true a b w = settled-modify a b _ w.execs (λ x. refl)

is_settled-drop_job : (a b : ℕ) (w : Worker) → is_settled a (drop_job b w) ≡ is_settled a w
unfolding is_settled drop_job
is_settled-drop_job a b w = ground arith

is_settled-mark_abandoned :
    (a b : ℕ) (w : Worker) → is_settled a (mark_abandoned b w) ≡ is_settled a w
unfolding is_settled mark_abandoned
is_settled-mark_abandoned a b w =
    ground (arith, settled-modify a b (λ x. record x { abandoned = true }) w.execs (λ x. refl))

is_settled-free_slot : (a b : ℕ) (w : Worker) → is_settled a (free_slot b w) ≡ is_settled a w
unfolding is_settled free_slot
is_settled-free_slot a b w =
    ground (arith, settled-modify a b (λ x. record x { abandoned = false }) w.execs (λ x. refl))

is_settled-cancel_timers :
    (a b : ℕ) (w : Worker) → is_settled a (cancel_timers b w) ≡ is_settled a w
unfolding is_settled cancel_timers
is_settled-cancel_timers a b w = refl

is_settled-abandon : (a b : ℕ) (w : Worker) → is_settled a (abandon b w) ≡ is_settled a w
unfolding abandon
is_settled-abandon a b w =
    simp (is_settled-cancel_timers, is_settled-mark_abandoned, is_settled-drop_job)

is_settled-cleanup : (a b : ℕ) (w : Worker) → is_settled a (cleanup b w) ≡ is_settled a w
unfolding cleanup
is_settled-cleanup a b w =
    simp (is_settled-cancel_timers, is_settled-free_slot, is_settled-drop_job)

is_settled-take_in :
    (a : ℕ) (j : ClaimedJob) (w : Worker) → is_settled a (take_in j w) ≡ is_settled a w
unfolding is_settled take_in
is_settled-take_in a j w = ground (arith, settled-append a w.execs j)

is_settled-begin_poll : (a me : ℕ) (w : Worker) → is_settled a (begin_poll me w) ≡ is_settled a w
unfolding is_settled begin_poll
is_settled-begin_poll a me w = ground arith

is_settled-end_poll : (a : ℕ) (w : Worker) → is_settled a (end_poll w) ≡ is_settled a w
unfolding is_settled end_poll
is_settled-end_poll a w = refl

is_settled-begin_start : (a : ℕ) (w : Worker) → is_settled a (begin_start w) ≡ is_settled a w
unfolding is_settled begin_start
is_settled-begin_start a w = ground arith

is_settled-begin_stop : (a : ℕ) (w : Worker) → is_settled a (begin_stop w) ≡ is_settled a w
unfolding is_settled begin_stop
is_settled-begin_stop a w = ground arith

-- Every section but the claim of the right to ack.
abbrev pub IsPlain : Section → Type 0
IsPlain (settles a) = ⊥
IsPlain _ = Unit

pub is_settled-apply :
    (a : ℕ) (f : Section) (w : Worker) → IsPlain f → is_settled a (apply f w) ≡ is_settled a w
unfolding apply is_settled
is_settled-apply a (settles b) w p = absurd p
is_settled-apply a (aborts b) w p = is_settled-set_abort a b w
is_settled-apply a (abandons b) w p = is_settled-abandon a b w
is_settled-apply a (cleans b) w p = is_settled-cleanup a b w
is_settled-apply a (loses b) w p = is_settled-lose a b w
is_settled-apply a (arms_timeout b) w p = is_settled-arm_timeout a b w
is_settled-apply a (arms_heartbeat first b) w p = is_settled-arm_heartbeat (arms first b w) a b w
is_settled-apply a (takes j) w p = is_settled-take_in a j w
is_settled-apply a (begins_poll me) w p = is_settled-begin_poll a me w
is_settled-apply a ends_poll w p = is_settled-end_poll a w
is_settled-apply a begins_start w p = is_settled-begin_start a w
is_settled-apply a begins_stop w p = is_settled-begin_stop a w
is_settled-apply a f w p = refl
