-- ===== src/Tor.antt =====
-- internal/tor: Tor instances, their versions, their restarts and their manager.
pub mod Version
pub mod Backoff
pub mod Restart
pub mod Instance
pub mod Manager
mod Examples
