-- ===== src/System.antt =====
-- The operating system as the crate meets it: a file system, a process table, faults and a clock.
pub mod World
pub mod Act
pub mod Triple
pub mod Files
