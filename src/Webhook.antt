-- ===== src/Webhook.antt =====
-- Sending events to the webhooks of instances, and what is sent of them.
pub mod Delivery
pub mod Pool
pub mod Edited
pub mod CallEvents
pub mod Identity
