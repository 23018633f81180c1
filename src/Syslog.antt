-- ===== src/Syslog.antt =====
-- scripts/syslog-bridge.py: the log lines that datagrams carry, and what is written of them.
pub mod Lines
pub mod Clean
pub mod Whole
pub mod Bridge
pub mod Unforged
