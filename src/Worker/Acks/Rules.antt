-- ===== src/Worker/Acks/Rules.antt =====
-- src/spooled/worker/worker.py: rules for the discipline of acks. `Always` is a program that keeps it
-- with or without the right; `Rightful` is one that may ack the execution `b`.
use spooled_sdk_python.Prelude.{
  ℕ, ◌==◌, Bool, true, false, ◌||◌, Option, none, some, Str, ◌≡◌, refl, arith, if◌then◌else◌,
}
use spooled_sdk_python.Json.{Value}
use spooled_sdk_python.Errors.{Result, ok, raised}
use spooled_sdk_python.Worker.{ClaimedJob, ActiveJob, Worker, find_exec}
use spooled_sdk_python.Worker.Locked.{settlement}
use spooled_sdk_python.Worker.Prog.{
  Prog, done, locked, call, emit, handle, until, spawn, timer, Event, Request, Response, Task,
}
use spooled_sdk_python.Worker.Settling.{
  with_job, with_exec, on_settlement, read, claim_settlement, on_lease,
}
use spooled_sdk_python.Worker.Section.{Section, keep, settles, apply}
use spooled_sdk_python.Worker.Acks.Store.{
  IsPlain, is_settled-apply, is_settled-settle, settlement-settled,
}
use spooled_sdk_python.Worker.Acks.Sound.{Sound, gains, acks}

module _ (a : ℕ) where
  abbrev pub Always : Prog → Type 0
  Always p = (h : Bool) → Sound a h p

  abbrev pub Rightful : ℕ → Prog → Type 0
  Rightful b p = (h : Bool) → ((a == b) ≡ true → h ≡ true) → Sound a h p

  -- A section that leaves the flag alone.
  pub locked-Always :
      (f : Section) (k : Worker → Prog)
      → IsPlain f
      → ((w : Worker) → Always (k w))
      → Always (locked f k)
  unfolding Sound
  locked-Always f k plain s h w = (ground (arith, is_settled-apply a f w plain), s w _)

  pub read-Always : (k : Worker → Prog) → ((w : Worker) → Always (k w)) → Always (read k)
  read-Always k s = locked-Always keep k tt s

  pub done-Always : Always done
  unfolding Sound
  done-Always h = tt

  pub emit-Always : (e : Event) (k : Prog) → Always k → Always (emit e k)
  unfolding Sound
  emit-Always e k s h = s h

  pub spawn-Always : (t : Task) (k : Prog) → Always k → Always (spawn t k)
  unfolding Sound
  spawn-Always t k s h = s h

  pub timer-Always : (t : ℕ) (k : Prog) → Always k → Always (timer t k)
  unfolding Sound
  timer-Always t k s h = s h

  pub handle-Always :
      (b : ℕ) (k : Result Value → Prog) → ((x : Result Value) → Always (k x)) → Always (handle b k)
  unfolding Sound
  handle-Always b k s h x = s x h

  pub until-Always :
      (g : Worker → Bool) (f : Section) (k : Prog) → IsPlain f → Always k → Always (until g f k)
  unfolding Sound
  until-Always g f k plain s h = (λ w. is_settled-apply a f w plain, s h)

  -- A call that is no ack.
  pub call-Always :
      (o : Option ℕ) (r : Request) (k : Result Response → Prog)
      → acks a o r ≡ false
      → ((x : Result Response) → Always (k x))
      → Always (call o r k)
  unfolding Sound
  call-Always o r k e s h = (rw e (omega arith), λ x. s x _)

  pub if-Always : (b : Bool) (p q : Prog) → Always p → Always q → Always (if b then p else q)
  if-Always true p q s t = s
  if-Always false p q s t = t

  pub with_exec-Always :
      (x : Option ActiveJob) (k : ClaimedJob → Prog) (p : Prog)
      → ((j : ClaimedJob) → Always (k j))
      → Always p
      → Always (with_exec x k p)
  with_exec-Always none k p s t = t
  with_exec-Always (some y) k p s t = s y.job

  pub with_job-Always :
      (b : ℕ) (k : ClaimedJob → Prog) (p : Prog)
      → ((j : ClaimedJob) → Always (k j))
      → Always p
      → Always (with_job b k p)
  with_job-Always b k p s t = read-Always _ λ w. with_exec-Always (find_exec b w.execs) k p s t

  pub on_lease-Always :
      (r : Result Bool) (p q u : Prog) → Always p → Always q → Always u → Always (on_lease r p q u)
  on_lease-Always (ok true) p q u s t v = s
  on_lease-Always (ok false) p q u s t v = t
  on_lease-Always (raised x) p q u s t v = v

  -- The ack itself takes the right, and leaves none.
  pub call-Rightful :
      (b : ℕ) (r : Request) (k : Result Response → Prog)
      → ((x : Result Response) → Always (k x))
      → Rightful b (call (some b) r k)
  unfolding Sound
  call-Rightful b r k s h right = (ground (arith, right), λ x. s x _)

  pub read-Rightful :
      (b : ℕ) (k : Worker → Prog) → ((w : Worker) → Rightful b (k w)) → Rightful b (read k)
  unfolding Sound apply
  read-Rightful b k s h right w = (omega arith, s w _ (λ e. ground (arith, right e)))

  pub if-Rightful :
      (b : ℕ) (c : Bool) (p q : Prog)
      → Rightful b p
      → Rightful b q
      → Rightful b (if c then p else q)
  if-Rightful b true p q s t = s
  if-Rightful b false p q s t = t

  pub Always-Rightful : (b : ℕ) (p : Prog) → Always p → Rightful b p
  Always-Rightful b p s h right = s h

  pub with_job-Rightful :
      (b : ℕ) (k : ClaimedJob → Prog) (p : Prog)
      → ((j : ClaimedJob) → Rightful b (k j))
      → Always p
      → Rightful b (with_job b k p)
  with_job-Rightful b k p s t = read-Rightful b _ λ w. go (find_exec b w.execs)
    where
      go : (x : Option ActiveJob) → Rightful b (with_exec x k p)
      go none = Always-Rightful b p t
      go (some y) = s y.job

  pub claim_settlement-Always :
      (b : ℕ) (refused : Prog) (k : Str → Prog)
      → Always refused
      → ((id : Str) → Rightful b (k id))
      → Always (claim_settlement b refused k)
  unfolding claim_settlement Sound apply
  claim_settlement-Always b refused k s t h w =
      (ground (arith, is_settled-settle a b w), go (settlement b w) refl)
    where
      go :
          (x : Option Str)
          → settlement b w ≡ x
          → Sound a (h || gains a (settles b) w) (on_settlement x refused k)
      go none e = s _
      go (some id) e =
          t id _ λ same. ground (arith, e, same, is_settled-settle a b w, settlement-settled b w e)
