-- ===== src/Rotation.antt =====
-- `main` of scripts/rotate-smtp-relay-cert.py behind its command line: housekeeping, the rotation
-- itself, and the removal of a key by hand.
pub mod Removal
pub mod Housekeeping
pub mod Steps
pub mod Run
pub mod Frame
pub mod Proven
pub mod Confirmed
pub mod Accounted
pub mod Additions
pub mod Gate
pub mod Reset
pub mod Listing
pub mod Costs
