-- ===== src/Service.antt =====
-- service: what the privileged service accepts from a client.
pub mod Protocol
pub mod Authorization
pub mod Accepted
mod Examples
