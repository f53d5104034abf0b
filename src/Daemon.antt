-- ===== src/Daemon.antt =====
-- The daemon: the running of commands and the retries of pairing (daemon.go), and tunnels
-- (tunnel_daemon.go). Its file transfers are modelled under Transfer.
pub mod Commands
pub mod Answers
pub mod Retry
pub mod Expiry
pub mod Tunnels
pub mod TunnelData
