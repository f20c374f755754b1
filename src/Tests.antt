-- ===== src/Tests.antt =====
-- The theorems at concrete data.
pub mod Reading
pub mod Dates
pub mod Data
pub mod Initiators
pub mod Acceptors
pub mod Transports
pub mod Sessions
pub mod Connections
pub mod Files
pub mod Managers
pub mod Peers
pub mod Helpers
pub mod Signals
pub mod Wires
