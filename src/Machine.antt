-- ===== src/Machine.antt =====
-- The world of scripts/rotate-smtp-relay-cert.py: the credential files, the state file, the history of
-- the run, the services that the script calls, and actions that may raise.
pub mod Types
pub mod Exec
pub mod Files
pub mod Actions
pub mod Triple
pub mod Keeps
pub mod Stores
pub mod Costs
