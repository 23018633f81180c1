-- ===== src/Tests.antt =====
-- Concrete runs, and the theorems at concrete data.
mod Fixture
mod CredentialRuns
mod RotationRuns
mod RecoveryRuns
mod AlertRuns
mod SyslogRuns
mod TokenRuns
mod ProgramRuns
mod SmtpRuns
mod RedactRuns
mod JsonRuns
mod RetryRuns
