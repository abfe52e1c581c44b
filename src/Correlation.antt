-- ===== src/Correlation.antt =====
-- correlation/engine.py: pre-execution decisions joined with runtime events.
pub mod Policy
pub mod Valid
pub mod State
pub mod Sound
pub mod Engine
pub mod Events
pub mod Changes
pub mod Runtime
pub mod Calls
pub mod Score
pub mod Kept
pub mod Bounded
pub mod Expiry
pub mod Repeated
pub mod Rising
pub mod Escalation
mod Examples
pub mod Tables
pub mod Fine
