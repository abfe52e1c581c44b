-- ===== src/Fanotify.antt =====
-- monitor/fanotify: the policy and the controller that answers the kernel's permission events.
pub mod Policy
pub mod Controller
pub mod Handler
pub mod Answers
pub mod Denial
pub mod Slots
pub mod Buffer
pub mod Tiles
pub mod Packed
mod Examples
