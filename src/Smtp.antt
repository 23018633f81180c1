-- ===== src/Smtp.antt =====
-- The SMTP clients: `send_proof_message` of scripts/rotate-smtp-relay-cert.py, the probe
-- scripts/probe-smtp-xoauth2.py and the client scripts/qualify-relay.py, over smtplib.
pub mod Session
pub mod Initial
pub mod Probe
pub mod Qualify
pub mod Talks
pub mod Secure
pub mod Verdict
pub mod Shown
