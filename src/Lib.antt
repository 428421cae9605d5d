-- ===== src/Lib.antt =====
-- The core logic of the Spooled SDK for Python (src/spooled): the errors, the retries, the circuit
-- breaker, the worker that claims jobs, runs their handlers and acks them, and the clients of the
-- real-time events.
--
-- How the parts interact. A worker claims jobs by the client's API, whose calls go through
-- `with_retry` around `CircuitBreaker.execute` around one HTTP request; a response that is no
-- success becomes one of the SDK's exceptions, and its `is_retryable` says whether `with_retry`
-- repeats the call and whether the breaker counts it. The worker reads `is_lease_expired` of an
-- exception to tell a lost lease from a failed call. The SSE client reads `is_retryable` as well,
-- to tell a rejection from a lost stream. The settings of all of them come from a `ResolvedConfig`.
--
-- The files.
--   Prelude, Json, Effects: numbers, lists and texts; JSON values (a dict is its fields in the
--     order of insertion); code that reads and writes a state and may raise.
--   Errors: src/spooled/errors.py. `SpooledError` is the base class and `Kind` the subclass with
--     its own fields; `Exn` is any Python exception that the code can meet. Errors/Response has the
--     readers of headers and bodies, Errors/Create `create_error_from_response`, Errors/Laws the
--     theorems.
--   Breaker: src/spooled/utils/circuit_breaker.py. A method that holds the lock throughout is a
--     function from the breaker to the breaker; `execute` runs over any state that holds one.
--     Breaker/Invariant, Breaker/Traces and Breaker/Execute have the theorems.
--   Retry: src/spooled/utils/retry.py, `should_retry`, `calculate_delay` and `with_retry`.
--     Retry/Delay is about the delays, Retry/Attempts about the calls, Retry/Raises about the
--     exceptions.
--   Casing: src/spooled/utils/casing.py, the keys of bodies and queries. Casing/Keys and
--     Casing/Bodies have the theorems.
--   Http: src/spooled/utils/http.py, with `RateLimitInfo` of src/spooled/types/common.py.
--     Http/Pipeline has the token refresh, `_execute_request` (`execute_replay` is its call with
--     `_allow_refresh=False`) and `request`; `Net` is what they work with. Http/Sends is about how
--     often a request is sent, Http/Outcomes about what it returns, Http/Flights about threads that
--     refresh together.
--   Worker: src/spooled/worker/worker.py. `Worker` is the object. Worker/Locked has what each
--     method does while it holds the lock, Worker/Section names these sections, Worker/Prog has
--     programs of sections, API calls, events, waits and new threads, with `run` for their
--     interleavings, and Worker/Settling, Worker/Jobs and Worker/Loop have each method as a program
--     under its name without the leading underscore. Worker/Runs carries an invariant of the
--     sections to any run; Worker/Acks, Worker/Handled, Worker/Intake, Worker/Slots and Worker/Leak
--     have the theorems.
--   AsyncWorker: src/spooled/worker/async_worker.py. `Execution` is an `ActiveJob` with the tasks
--     that act on it; a function is what a task does between two awaits. AsyncWorker/Tasks has the
--     steps of the tasks, AsyncWorker/Intake those of `start()` and `stop()` on the worker.
--     AsyncWorker/Change, Change/Steps and AsyncWorker/Held have the lemmas about one step; AsyncWorker/Acks,
--     AsyncWorker/Dropped, Intake/Capacity, Intake/Late and Intake/Order have the theorems.
--   Http/Async: src/spooled/utils/async_http.py, with `with_retry_async`. Http/Async/Same compares
--     it with the other client.
--   Config: src/spooled/config.py. `construct` is pydantic's check of the declared bounds.
--     Config/Merge is about `merge_client_config`, which `with_options()` calls.
--   Realtime: src/spooled/realtime. Realtime/Events is events.py; Realtime/Frames the parsing of
--     the frames of sse.py, and Realtime/Sse its `SSEClient`, whose generator `events()` is a
--     machine: `Place` is where it stands and `step` what it does on an `Answer`. Realtime/Socket
--     is the `WebSocketClient` of websocket.py, whose methods run without a lock: `step` is the start
--     of a method, a turn of a thread that is inside one (`Task`), a break of the socket on a
--     receive thread, or a reconnect timer, which fires and later has its answer.
--     Realtime/AsyncSocket is the generator of `AsyncWebSocketClient`, and Realtime/AsyncSse that
--     of `AsyncSSEClient`, which reads lines. Realtime/Unified is `SpooledRealtime` of unified.py,
--     with the queue of its `events()` in Unified/Queue. Unified/Filters, Unified/GaveUp,
--     AsyncSse/Lines, Sse/Budget, Sse/Ends, Sse/Closing, AsyncSocket/Failures,
--     Socket/Budget and Socket/Races have the theorems.
--   Grpc: src/spooled/grpc/client.py. Grpc/Errors maps the errors of calls; Grpc/Requests has the
--     queue of a `ProcessJobsStream` and the generator that gRPC reads it by, whose
--     `queue.Empty` and whose read of `_ended` are steps apart. Grpc/Leases,
--     Grpc/Order and Grpc/Ends have the theorems.
--   Token: src/spooled/utils/jwt.py and the tokens of `SpooledClient` in src/spooled/client.py.
--     `Moment` is the clock and the server during one call. Token/Cache and Token/Renewal have the
--     theorems.
--
-- Conventions. Code outside the repository is a parameter: Python's `float` and HTTP date readers
-- (`Readers`), float arithmetic and `random.uniform` (`Floats`, `Env`), the clock, the text of an
-- exception (`show`), httpx (`transport` of `Net`), urllib's `urlencode`, `json.loads` (`loads`),
-- Python's `datetime` (`Clock`), whether a socket takes a command (`Took`), and what the server,
-- the handler and the timers answer (the `Answer`s of a schedule). Texts are lists of code points;
-- `lower` and `upper` change ASCII letters only. Times are natural numbers of a unit of the
-- reader's choice, so sums of them are exact; the ten seconds after which a socket counts as stable
-- (`stable`) and the minute before an expiry (`leeway`) are parameters. Python's `max(0, n - 1)` is
-- the subtraction of natural numbers.
--
-- Threads. A schedule says at each step which thread moves and what answers it, so a statement
-- about every schedule is one about every interleaving. A read or a write of one attribute outside
-- the lock is a step of its own, and so may be a run of reads that the source makes in a row. A
-- wait on the condition may end at any moment by its deadline. A signal handler that calls `stop`
-- is a thread of its own with the number of the polling thread; that Python's re-entrant lock lets
-- such a handler run inside a locked section of its own thread is not covered. `threading.Timer` is
-- a thread that waits for the deadline or the cancellation of its timer; a timer that its method
-- makes and does not keep is never started, and has no place in the store. Of the real-time clients,
-- Realtime/Socket lets other threads run inside a method, between the points that its head names;
-- in Realtime/Unified a call of a method is one step, and so is each half of `do_reconnect`, before
-- and after the answer of the server: what two threads do inside one of these is not covered.
--
-- Bounds. `with_retry` is by recursion on the rounds that `range` leaves, so it needs no fuel. A
-- schedule is a finite list of any length.
--
-- Tasks. An asyncio task runs alone from one await to the next, and the async worker never holds
-- its lock across an await, so a step there is all that a task does between two awaits. Where the
-- code may go on without suspending, as when a handler returns at once, the model lets other tasks
-- in between. A cancellation is a request that the task gets when it next resumes. That an
-- execution is the only one of its job and that nobody else cancels it is a condition on the steps
-- (`all_own`).
--
-- Not modelled: the resources and the async client, which only call the HTTP client; the worker
-- heartbeat of the async worker, and a cancellation of its `start()` or `stop()`; the conversions
-- of gRPC messages and the receiving side of its streams; the handlers of real-time events, whose
-- exceptions are dropped, and the lengths of the delays between their reconnects; the lazy creation
-- of httpx's async client; debug output; the fields of events that no theorem reads; the
-- declarations of pydantic models; generated stubs.
mod Prelude
pub mod Json
pub mod Errors
mod Effects
pub mod Breaker
pub mod Retry
pub mod Config
pub mod Casing
pub mod Http
pub mod Realtime
pub mod Worker
pub mod Grpc
pub mod Token
pub mod AsyncWorker
