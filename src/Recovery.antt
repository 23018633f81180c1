-- ===== src/Recovery.antt =====
-- `--recover` of scripts/rotate-smtp-relay-cert.py: a live certificate that Entra no longer trusts is
-- replaced by a standby certificate that an operator uploads.
pub mod Standby
pub mod Run
pub mod Frame
pub mod Costs
pub mod Evidence
pub mod Guard
pub mod Outcomes
pub mod Streak
pub mod Persistent
pub mod Healthy
