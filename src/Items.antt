-- ===== src/Items.antt =====
-- Items, activities and their events: the transactions of internal/service/service.go and of
-- CompleteItem in internal/service/features.go, with the queries they run.
pub mod State
pub mod Tables
pub mod Revision
pub mod Transaction
pub mod Operations
pub mod Robust
pub mod Spec
pub mod Acts
pub mod Atomic
pub mod Bodies
pub mod Changes
pub mod Closing
pub mod Refinement
pub mod Creation
pub mod Idempotence
pub mod Told
pub mod Retry
pub mod History
pub mod Laws
pub mod Races
pub mod Steps
pub mod Audit
pub mod Completion
mod Tests
