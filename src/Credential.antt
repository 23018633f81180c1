-- ===== src/Credential.antt =====
-- The pure decisions about one certificate, of scripts/rotate-smtp-relay-cert.py.
pub mod Ascii
pub mod Base64
pub mod Thumbprint
pub mod Window
pub mod Failure
pub mod Owner
