-- ===== src/Sync.antt =====
-- internal/sync: two instances keep one project in step through a mailbox.
pub mod Payload
pub mod Merge
pub mod Engine
