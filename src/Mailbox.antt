-- ===== src/Mailbox.antt =====
-- internal/mailbox/mailbox.go: the rendezvous server of cross-instance sharing.
pub mod State
pub mod Store
pub mod Boxes
pub mod Server
