-- ===== src/Audit.antt =====
-- elyra-engine/src/elyra/audit/audit_logger.py: the audit log, a chain of hashed records in files.
pub mod Bytes
pub mod Record
pub mod Verify
pub mod Disk
pub mod Logger
pub mod Methods
pub mod Lines
pub mod Accepted
pub mod Behind
pub mod JsonLaws
pub mod Entry
pub mod Append
pub mod Rotation
pub mod Writes
pub mod Continued
pub mod Tail
pub mod Growth
pub mod History
pub mod Recovery
pub mod Examples
