-- ===== src/Realtime.antt =====
-- src/spooled/realtime: `Realtime.Events`, the events that the server sends and the commands of a
-- WebSocket; `Realtime.Frames`, the parsing of server-sent events; `Realtime.Sse` and
-- `Realtime.AsyncSse`, the clients for them; `Realtime.Socket` and `Realtime.AsyncSocket`, the clients
-- over a WebSocket; `Realtime.Unified`, the client over either.
pub mod Events
pub mod Frames
pub mod Sse
pub mod Socket
pub mod AsyncSocket
pub mod Unified
pub mod AsyncSse
