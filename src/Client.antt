-- ===== src/Client.antt =====
-- src/session-index-client.mjs: the client of the index daemon.
pub mod Values
pub mod Errors
pub mod Checks
pub mod Responses
pub mod Requests
pub mod SearchResponses
pub mod ViewRequests
pub mod ViewResponses
pub mod Frames
pub mod State
pub mod Handle
pub mod Step
pub mod Accepted
pub mod Methods
pub mod Control
mod Tests
