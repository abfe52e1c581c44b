-- ===== src/Quarantine.antt =====
-- elyra-engine/src/elyra/response/quarantine_manager.py: files that are taken away, restored and deleted.
pub mod Files
pub mod Record
pub mod Moves
pub mod Manager
pub mod Stable
pub mod Pending
pub mod Cases
pub mod Swap
pub mod Preserved
pub mod Rollback
pub mod Untouched
pub mod Copied
pub mod Stored
pub mod Success
mod Examples
pub mod Restore
