-- ===== src/Readme.antt =====
-- src/index.mjs: the bounded projection of a README, over texts as lists of code points.
pub mod Text
pub mod Lines
pub mod Boundaries
pub mod Projection
pub mod Load
mod Tests
