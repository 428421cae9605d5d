-- ===== src/Worker/Prog.antt =====
-- src/spooled/worker/worker.py: methods as programs, and the interleavings of the threads that run
-- them. A step of a thread is a section under the lock, an API call, an event or the handler; what
-- the server, the handler and the clock answer comes from outside, by `Answer`.
use spooled_sdk_python.Prelude.{
  ℕ, zero, suc, Bool, true, false, Option, List, [], ◌∷◌, ◌++◌, Str, if◌then◌else◌,
}
use spooled_sdk_python.Json.{Value}
use spooled_sdk_python.Errors.{Result}
use spooled_sdk_python.Worker.{ClaimedJob, Worker, is_cancelled}
use spooled_sdk_python.Worker.Section.{Section, apply}

-- The calls of the API, with the parameters that the worker sends.
pub data Request : Type 0 where
  register : (queue_name : Str) (worker_id : Option Str) (max_concurrency : ℕ) → Request
  deregister : (worker_id : Str) → Request
  claim : (queue_name worker_id : Str) (limit lease_duration_secs : ℕ) → Request
  complete : (job_id worker_id : Str) (lease_id : Option Str) (result : Value) → Request
  fail : (job_id worker_id : Str) (lease_id : Option Str) (error : Str) → Request
  heartbeat : (job_id worker_id : Str) (lease_id : Option Str) (lease_duration_secs : ℕ) → Request
  worker_heartbeat : (worker_id : Str) (current_jobs : ℕ) → Request

pub data Response : Type 0 where
  nothing : Response
  registered : (id : Str) → Response
  jobs : List ClaimedJob → Response

-- The events of `_emit`. A callback's exceptions are dropped there; a callback that calls `stop` is
-- the thread of such a call.
pub data Event : Type 0 where
  started stopped failed : Event
  job_claimed job_started : (job_id : Str) → Event
  job_completed : (job_id : Str) (result : Value) → Event
  job_failed : (job_id error : Str) (will_retry : Bool) → Event
  job_lease_lost : (job_id operation : Str) → Event

-- What the worker starts on another thread, and the next round of its polling loop.
pub data Task : Type 0 where
  execute_handler : ℕ → Task
  job_heartbeat : (timer exec : ℕ) → Task
  job_timeout : (timer exec : ℕ) → Task
  worker_beat : (timer : ℕ) → Task
  poll_round : (thread : ℕ) → Task

-- `locked f k` runs the section `f` under the lock and goes on with `k` at the worker as it was before `f`.
-- `call` carries the execution on whose behalf it is made, if there is one. `until g f k` waits on
-- the condition until `g` holds or the deadline passes, and runs `f` in the same section.
-- `timer t k` is the thread of a timer, which ends if the timer is cancelled before it fires.
pub data Prog : Type 0 where
  done : Prog
  locked : Section → (Worker → Prog) → Prog
  call : Option ℕ → Request → (Result Response → Prog) → Prog
  emit : Event → Prog → Prog
  handle : ℕ → (Result Value → Prog) → Prog
  until : (Worker → Bool) → Section → Prog → Prog
  spawn : Task → Prog → Prog
  timer : ℕ → Prog → Prog

-- What lets a step go on: nothing, the server's reply, what the handler returned or raised, or the
-- deadline of a wait or a timer.
pub data Answer : Type 0 where
  go : Answer
  reply : Result Response → Answer
  outcome : Result Value → Answer
  deadline : Answer

-- An API call that was made, and for which execution.
abbrev pub Sent : Type 0
Sent = Option ℕ × Request

-- A step of one thread.
pub record Move : Type 0 where
  pub worker : Worker
  pub prog : Prog
  pub sent : List Sent
  pub tasks : List Task

abbrev quiet : Worker → Prog → Move
quiet w p = record { worker = w; prog = p; sent = []; tasks = [] }

abbrev pub is_deadline : Answer → Bool
is_deadline deadline = true
is_deadline _ = false

abbrev answer_call : Option ℕ → Request → (Result Response → Prog) → Answer → Worker → Move
answer_call o r k (reply x) w = record { worker = w; prog = k x; sent = (o, r) ∷ []; tasks = [] }
answer_call o r k _ w = quiet w (call o r k)

abbrev answer_handle : ℕ → (Result Value → Prog) → Answer → Worker → Move
answer_handle a k (outcome x) w = quiet w (k x)
answer_handle a k _ w = quiet w (handle a k)

unfoldable pub advance : Prog → Answer → Worker → Move
advance done ans w = quiet w done
advance (locked f k) ans w = quiet (apply f w) (k w)
advance (call o r k) ans w = answer_call o r k ans w
advance (emit e k) ans w = quiet w k
advance (handle a k) ans w = answer_handle a k ans w
advance (until g f k) ans w =
    if g w
    then quiet (apply f w) k
    else if is_deadline ans
    then quiet (apply f w) k
    else quiet w (until g f k)
advance (spawn t k) ans w = record { worker = w; prog = k; sent = []; tasks = t ∷ [] }
advance (timer t k) ans w =
    if is_cancelled t w.timers
    then quiet w done
    else if is_deadline ans
    then quiet w k
    else quiet w (timer t k)

pub record World : Type 0 where
  pub worker : Worker
  pub threads : List Prog
  pub sent : List Sent

-- The threads, the worker, and what was sent, after one thread moved.
abbrev pub Turn : Type 0
Turn = World

-- A schedule: which thread moves, and with which answer.
abbrev pub Schedule : Type 0
Schedule = List (ℕ × Answer)

module _ (body : Task → Prog) where
  abbrev pub bodies : List Task → List Prog
  bodies [] = []
  bodies (t ∷ ts) = body t ∷ bodies ts

  -- The thread at a place moves; new threads stand behind it.
  unfoldable pub take_turn : ℕ → Answer → Worker → List Prog → Turn
  take_turn i ans w [] = record { worker = w; threads = []; sent = [] }
  take_turn zero ans w (p ∷ ps) =
      let m = advance p ans w in
      record { worker = m.worker; threads = m.prog ∷ (bodies m.tasks ++ ps); sent = m.sent }
  take_turn (suc i) ans w (p ∷ ps) =
      let t = take_turn i ans w ps in record t { threads = p ∷ t.threads }

  unfoldable pub run : Schedule → World → World
  run [] s = s
  run ((i, ans) ∷ rest) s =
      let t = take_turn i ans s.worker s.threads in run rest (record t { sent = t.sent ++ s.sent })
