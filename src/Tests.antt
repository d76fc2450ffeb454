-- ===== src/Tests.antt =====
-- Witnesses of the theorems at concrete machines, and the system on which they run.
pub mod World
pub mod Adapter
pub mod Adapters
pub mod Completions
pub mod Buffers
pub mod Sessions
pub mod Transfers
pub mod Patterns
pub mod Modules
pub mod OneSided
pub mod Shared
pub mod Vapi
