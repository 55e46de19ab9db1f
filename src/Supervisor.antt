-- ===== src/Supervisor.antt =====
-- The supervision of a child process: src/process/supervisor.rs.
pub mod Backoff
pub mod Storm
pub mod State
pub mod Loop
