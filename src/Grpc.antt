-- ===== src/Grpc.antt =====
-- src/spooled/grpc/client.py: the errors of calls, and the requests of the bidirectional stream. The
-- package `grpc` and the generated stubs are not under src, so a call is what it returns or raises.
pub mod Errors
pub mod Requests
pub mod Leases
pub mod Order
pub mod Ends
mod Examples
