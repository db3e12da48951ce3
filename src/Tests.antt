-- ===== src/Tests.antt =====
-- Runs at concrete inputs, and the theorems applied to inputs that meet their hypotheses.
pub mod Wire
pub mod Sessions
pub mod Server
mod Launch
mod Loading
pub mod Bodies
pub mod Screen
pub mod Endpoints
pub mod Lifecycle
pub mod Handed
