-- ===== src/Runtime.antt =====
-- src/session-index-runtime.mjs: the runtime that attaches a DSH session-query service to the index
-- daemon, monitors the attachment and restarts it with a back-off. An `await` ends an atomic
-- segment: `Runtime.Reattach` has one function for each segment, and `Runtime.Step` joins the
-- segments, the timer and the calls of the service in any order.
pub mod Health
pub mod State
pub mod Backoff
pub mod Reattach
pub mod Calls
pub mod Step
pub mod Options
pub mod Operations
mod Tests
