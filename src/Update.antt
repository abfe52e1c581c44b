-- ===== src/Update.antt =====
-- elyra-engine/src/elyra/update/checker.py: whether a newer release is offered.
pub mod Checker
pub mod Decision
pub mod Examples
