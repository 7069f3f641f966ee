-- ===== src/Dsh.antt =====
-- src/session-index-dsh-source.mjs: the source that projects session logs into the index daemon.
pub mod Errors
pub mod Decimal
pub mod Chunks
pub mod Session
pub mod Snapshots
pub mod Snippets
pub mod Records
pub mod Projection
pub mod Listing
pub mod Reads
pub mod Retention
pub mod Source
mod Tests
