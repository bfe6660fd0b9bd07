-- ===== src/Share.antt =====
-- internal/service/sharing.go, internal/sync/client.go and the invites of protocol.go: how two
-- instances come to share a project, and how an instance talks to its mailbox host.
pub mod Base64
pub mod Invite
pub mod Client
pub mod Rows
pub mod Config
pub mod Setup
pub mod Linking
pub mod Passes
pub mod Touches
pub mod Isolation
pub mod Outbox
pub mod Quiet
mod SetupTests
mod Tests
