-- ===== src/Client/Accepted.antt =====
-- src/session-index-client.mjs: what the checks of requests and responses promise of the values that they accept.
pub mod Texts
pub mod Cursors
pub mod Sessions
pub mod Search
mod Tests
