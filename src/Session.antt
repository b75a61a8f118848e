-- ===== src/Session.antt =====
-- internal/session/whatsmeow, beside the calls: what the manager keeps of the messages it sent, and
-- how it follows an instance's connection.
pub mod RetryCache
pub mod Connection
