-- ===== src/PidFile.antt =====
-- src/process/pid_file.rs: records of owned processes, and the reaping of orphans.
pub mod Record
pub mod Hex
pub mod Format
pub mod Names
pub mod Identity
pub mod Reap
pub mod Descendants
pub mod Store
pub mod Guard
