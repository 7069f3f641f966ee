-- ===== src/ViewSource.antt =====
-- src/dsh-alpha4-view-source.mjs: the source of one compiled view.
pub mod Checks
pub mod Records
pub mod Accepted
pub mod Replacement
pub mod State
pub mod Work
pub mod Step
mod Tests
