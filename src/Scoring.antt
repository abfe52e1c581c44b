-- ===== src/Scoring.antt =====
-- scoring/engine.py: the pre-execution scoring policy and engine.
pub mod Policy
pub mod Evidence
pub mod Engine
pub mod Result
pub mod Range
pub mod Sums
pub mod Explained
pub mod Gate
pub mod Complete
pub mod Default
mod Examples
