-- ===== src/Worker/Acks.antt =====
-- src/spooled/worker/worker.py: an execution is acked (completed or failed) at most once, however
-- the threads interleave. `Acks.Store` has the lemmas on the store of executions, `Acks.Sound` the
-- discipline that a program follows, `Acks.Rules` its rules, `Acks.Methods` that each method follows
-- it, and `Acks.Once` the theorem.
pub mod Store
pub mod Sound
pub mod Rules
pub mod Methods
pub mod Tasks
pub mod Once
