-- ===== src/Worker/Acks/Sound.antt =====
-- src/spooled/worker/worker.py: the discipline of acks. A program with the right to ack an execution
-- may send one complete or fail for it and then has it no more; a program gets the right when a
-- section that it runs sets the execution's `settled` flag.
use spooled_sdk_python.Prelude.{
  ℕ, zero, suc, ◌+◌, ◌==◌, ◌≤◌, Bool, true, false, not, ◌&&◌, ◌||◌, Option, none, some, List, [],
  ◌∷◌, ◌++◌, ◌≡◌, refl, arith, if◌then◌else◌,
}
use spooled_sdk_python.Json.{Value}
use spooled_sdk_python.Errors.{Result}
use spooled_sdk_python.Worker.{Worker, is_settled}
use spooled_sdk_python.Worker.Section.{Section, apply}
use spooled_sdk_python.Worker.Prog.{
  Prog, done, locked, call, emit, handle, until, spawn, timer, Request, complete, fail, Response,
  Task, Answer, reply, outcome, Sent, Move, advance, World, bodies, take_turn, Schedule, run,
}

abbrev pub is_ack : Request → Bool
is_ack (complete j w l r) = true
is_ack (fail j w l e) = true
is_ack _ = false

abbrev pub is_for : ℕ → Option ℕ → Bool
is_for a none = false
is_for a (some b) = a == b

-- Whether a call is an ack on behalf of an execution.
abbrev pub acks : ℕ → Option ℕ → Request → Bool
acks a o r = is_for a o && is_ack r

abbrev pub bit : Bool → ℕ
bit false = 0
bit true = 1

-- Whether a section sets the flag.
abbrev pub gains : ℕ → Section → Worker → Bool
gains a f w = not (is_settled a w) && is_settled a (apply f w)

-- The program, with or without the right to ack the execution, keeps the discipline.
unfoldable pub Sound : ℕ → Bool → Prog → Type 0
Sound a h done = Unit
Sound a h (locked f k) =
    (w : Worker)
    → (bit (is_settled a w) ≤ bit (is_settled a (apply f w))) × Sound a (h || gains a f w) (k w)
Sound a h (call o r k) =
    (bit (acks a o r) ≤ bit h) × ((x : Result Response) → Sound a (h && not (acks a o r)) (k x))
Sound a h (emit e k) = Sound a h k
Sound a h (handle b k) = (x : Result Value) → Sound a h (k x)
Sound a h (until g f k) = ((w : Worker) → is_settled a (apply f w) ≡ is_settled a w) × Sound a h k
Sound a h (spawn t k) = Sound a h k
Sound a h (timer t k) = Sound a h k

-- The acks for an execution among the calls that were sent.
abbrev pub count_acks : ℕ → List Sent → ℕ
count_acks a [] = 0
count_acks a ((o, r) ∷ rest) = bit (acks a o r) + count_acks a rest

-- The threads keep the discipline, and so many of them have the right.
abbrev pub Rights : ℕ → List Prog → ℕ → Type 0
Rights a [] n = n ≡ 0
Rights a (p ∷ ps) n = (h : Bool) × (m : ℕ) × Sound a h p × Rights a ps m × (n ≡ bit h + m)

-- A step spends what it sends, and gains what it settles.
record Spends (a : ℕ) (h : Bool) (w : Worker) (m : Move) : Type 0 where
  holds : Bool
  sound : Sound a holds m.prog
  balance :
      bit holds + count_acks a m.sent + bit (is_settled a w) ≤ bit h + bit (is_settled a m.worker)

if-Spends :
    (a : ℕ) (h : Bool) (w : Worker) (b : Bool) (x y : Move)
    → Spends a h w x
    → Spends a h w y
    → Spends a h w (if b then x else y)
if-Spends a h w true x y s t = s
if-Spends a h w false x y s t = t

advance-Spends :
    (a : ℕ) (h : Bool) (p : Prog) (ans : Answer) (w : Worker)
    → Sound a h p
    → Spends a h w (advance p ans w)
unfolding advance Sound
advance-Spends a h done ans w s = record { holds = h; sound = s; balance = omega arith }
advance-Spends a h (locked f k) ans w s = record {
  holds = h || gains a f w;
  sound = (s w).1;
  balance = ground (arith, s w);
}
advance-Spends a h (call o r k) (reply x) w s = record {
  holds = h && not (acks a o r);
  sound = s.1 x;
  balance = ground (arith, s.0);
}
advance-Spends a h (call o r k) ans w s = record { holds = h; sound = s; balance = omega arith }
advance-Spends a h (emit e k) ans w s = record { holds = h; sound = s; balance = omega arith }
advance-Spends a h (handle b k) (outcome x) w s = record {
  holds = h;
  sound = s x;
  balance = omega arith;
}
advance-Spends a h (handle b k) ans w s = record { holds = h; sound = s; balance = omega arith }
advance-Spends a h (until g f k) ans w s =
    if-Spends a h w _ _ _ woken (if-Spends a h w _ _ _ woken still)
  where
    woken : Spends a h w (record { worker = apply f w; prog = k; sent = []; tasks = [] })
    woken = record { holds = h; sound = s.1; balance = ground (arith, s.0 w) }

    still : Spends a h w (record { worker = w; prog = until g f k; sent = []; tasks = [] })
    still = record { holds = h; sound = s; balance = omega arith }
advance-Spends a h (spawn t k) ans w s = record { holds = h; sound = s; balance = omega arith }
advance-Spends a h (timer t k) ans w s =
    if-Spends a h w _ _ _ ended (if-Spends a h w _ _ _ fired still)
  where
    ended : Spends a h w (record { worker = w; prog = done; sent = []; tasks = [] })
    ended = record { holds = h; sound = tt; balance = omega arith }

    fired : Spends a h w (record { worker = w; prog = k; sent = []; tasks = [] })
    fired = record { holds = h; sound = s; balance = omega arith }

    still : Spends a h w (record { worker = w; prog = timer t k; sent = []; tasks = [] })
    still = record { holds = h; sound = s; balance = omega arith }

module _ (a : ℕ) (body : Task → Prog) (tasks_sound : (t : Task) → Sound a false (body t)) where
  bodies-Rights :
      (ts : List Task) (ps : List Prog) (n : ℕ) → Rights a ps n → Rights a (bodies body ts ++ ps) n
  bodies-Rights [] ps n r = r
  bodies-Rights (t ∷ ts) ps n r = (false, n, tasks_sound t, bodies-Rights ts ps n r, omega arith)

  -- A turn spends as its thread does.
  take_turn-Rights :
      (i : ℕ) (ans : Answer) (w : Worker) (ps : List Prog) (n : ℕ)
      → Rights a ps n
      → let t = take_turn body i ans w ps in
        (m : ℕ) × Rights a t.threads m
        × (m + count_acks a t.sent + bit (is_settled a w) ≤ n + bit (is_settled a t.worker))
  unfolding take_turn
  take_turn-Rights i ans w [] n r = (0, refl, omega arith)
  take_turn-Rights zero ans w (p ∷ ps) n (h, m, s, rest, e) =
      let spent = advance-Spends a h p ans w s in
      (
        bit spent.holds + m,
        (spent.holds, m, spent.sound, bodies-Rights (advance p ans w).tasks ps m rest, refl),
        omega (arith, spent.balance),
      )
  take_turn-Rights (suc i) ans w (p ∷ ps) n (h, m, s, rest, e) =
      let (m', rest', le) = take_turn-Rights i ans w ps m rest in
      (bit h + m', (h, m', s, rest', refl), omega arith)

  count_acks-append :
      (xs ys : List Sent) → count_acks a (xs ++ ys) ≡ count_acks a xs + count_acks a ys
  count_acks-append [] ys = omega arith
  count_acks-append ((o, r) ∷ xs) ys = omega (arith, count_acks-append xs ys)

  -- Along any schedule, the rights that are held and the acks that were sent are at most 1, and 0
  -- until the flag is set.
  pub run-Rights :
      (sched : Schedule) (s : World) (n : ℕ)
      → Rights a s.threads n
      → n + count_acks a s.sent ≤ bit (is_settled a s.worker)
      → count_acks a (run body sched s).sent ≤ bit (is_settled a (run body sched s).worker)
  unfolding run
  run-Rights [] s n r le = omega arith
  run-Rights ((i, ans) ∷ rest) s n r le =
      let t = take_turn body i ans s.worker s.threads in
      let (m, r', le') = take_turn-Rights i ans s.worker s.threads n r in
      run-Rights rest (record t { sent = t.sent ++ s.sent }) m r'
        (omega (arith, count_acks-append t.sent s.sent))
