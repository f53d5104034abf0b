-- ===== src/Relay.antt =====
-- The relay server (relay*.go).
pub mod Client
pub mod State
pub mod Register
pub mod Forward
pub mod Chunks
pub mod Results
pub mod Multi
pub mod Pair
pub mod Tunnel
pub mod Serve
pub mod Framing
pub mod Wires
pub mod Correlation
pub mod Refusals
pub mod Departure
pub mod Tunnels
pub mod Pairing
pub mod Aggregate
pub mod Dispatch
pub mod Authority
pub mod Registry
