-- ===== src/Message.antt =====
-- Messages: the table `message_queue`, the outbox that sends them, and the receipts that move their
-- status.
pub mod Repo
pub mod Outbox
pub mod Receipts
pub mod StuckDetector
