-- ===== src/Relay/Authority.antt =====
-- Who can make the relay send a request to a connection: the request handlers, the quiet handlers, and
-- the multi-target fan-out, joined for the read loop.
pub mod Base
mod Handlers
mod Quiet
mod Answers
mod Fanout
mod Writers
pub mod Gate
