-- ===== src/Send.antt =====
-- Sending: the state that internal/service/message keeps between sends, and the send itself.
pub mod Reachout
pub mod Inbound
pub mod PresenceState
pub mod Outage
pub mod Attempts
pub mod Resolver
pub mod Saver
pub mod Sticker
pub mod Content
pub mod Ready
pub mod Flow
