-- ===== src/Cockpit.antt =====
-- apps/backend/app/cockpit: the authoritative state of the cockpit.
pub mod Errors
pub mod World
pub mod Parameters
pub mod Policies
pub mod StateFactory
pub mod Transitions
pub mod Broker
pub mod Service
pub mod Coherence
pub mod Runs
mod Examples
