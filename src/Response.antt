-- ===== src/Response.antt =====
-- response/engine.py: authorised responses against bound process and file identities.
pub mod Policy
pub mod Process
pub mod Engine
pub mod Table
pub mod Actions
pub mod Calls
pub mod Safe
pub mod Bindings
pub mod Kept
pub mod Limits
mod Examples
