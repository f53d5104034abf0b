-- ===== src/Relay/Registry.antt =====
-- Who holds a name in the relay's `clients` map: which handlers change it, and by what right.
mod Same
mod Requests
mod Answers
mod Names
pub mod Takeover
