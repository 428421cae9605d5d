-- ===== src/Worker/Runs.antt =====
-- src/spooled/worker/worker.py: what every section under the lock keeps, every step of every thread
-- keeps.
use spooled_sdk_python.Prelude.{ℕ, zero, suc, Bool, true, false, List, [], ◌∷◌, if◌then◌else◌}
use spooled_sdk_python.Worker.{Worker, is_cancelled}
use spooled_sdk_python.Worker.Section.{Section, apply}
use spooled_sdk_python.Worker.Prog.{
  Prog, done, locked, call, emit, handle, until, spawn, timer, Answer, reply, outcome, is_deadline,
  Move, advance, Task, World, take_turn, Schedule, run,
}

module _ (P : Worker → Type 0) (keeps : (f : Section) (w : Worker) → P w → P (apply f w)) where
  if-P : (b : Bool) (x y : Move) → P x.worker → P y.worker → P (if b then x else y).worker
  if-P true x y p q = p
  if-P false x y p q = q

  advance-P : (p : Prog) (ans : Answer) (w : Worker) → P w → P (advance p ans w).worker
  unfolding advance
  advance-P done ans w h = h
  advance-P (locked f k) ans w h = keeps f w h
  advance-P (call o r k) (reply x) w h = h
  advance-P (call o r k) ans w h = h
  advance-P (emit e k) ans w h = h
  advance-P (handle b k) (outcome x) w h = h
  advance-P (handle b k) ans w h = h
  advance-P (until g f k) ans w h =
      let woken : Move = record { worker = apply f w; prog = k; sent = []; tasks = [] } in
      let still : Move = record { worker = w; prog = until g f k; sent = []; tasks = [] } in
      if-P (g w) woken (if is_deadline ans then woken else still) (keeps f w h)
        (if-P (is_deadline ans) woken still (keeps f w h) h)
  advance-P (spawn t k) ans w h = h
  advance-P (timer t k) ans w h =
      let ended : Move = record { worker = w; prog = done; sent = []; tasks = [] } in
      let fired : Move = record { worker = w; prog = k; sent = []; tasks = [] } in
      let still : Move = record { worker = w; prog = timer t k; sent = []; tasks = [] } in
      if-P (is_cancelled t w.timers) ended (if is_deadline ans then fired else still) h
        (if-P (is_deadline ans) fired still h h)

  take_turn-P :
      (body : Task → Prog) (i : ℕ) (ans : Answer) (w : Worker) (ps : List Prog)
      → P w
      → P (take_turn body i ans w ps).worker
  unfolding take_turn
  take_turn-P body i ans w [] h = h
  take_turn-P body zero ans w (p ∷ ps) h = advance-P p ans w h
  take_turn-P body (suc i) ans w (p ∷ ps) h = take_turn-P body i ans w ps h

  pub run-P :
      (body : Task → Prog) (sched : Schedule) (s : World) → P s.worker → P (run body sched s).worker
  unfolding run
  run-P body [] s h = h
  run-P body ((i, ans) ∷ rest) s h =
      let t = take_turn body i ans s.worker s.threads in
      run-P body rest _ (take_turn-P body i ans s.worker s.threads h)
