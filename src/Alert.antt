-- ===== src/Alert.antt =====
-- scripts/alert-event.py: incidents that are reported once, and notifications that are retried on each
-- channel until it has accepted them.
pub mod Outbox
pub mod Incident
pub mod Delivery
pub mod Kept
pub mod Backoff
pub mod Redact
pub mod Apart
pub mod Guidance
pub mod Report
pub mod Entry
pub mod Channels
pub mod Due
pub mod Eventually
pub mod Json
pub mod Published
pub mod Accepted
pub mod Lifecycle
pub mod Abstract
