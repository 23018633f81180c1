-- ===== src/Token.antt =====
-- scripts/refresh-smtp-token.py: the token file that Postfix reads.
pub mod Refresh
pub mod Atomic
pub mod Mint
