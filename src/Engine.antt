-- ===== src/Engine.antt =====
-- The process engine: src/process/engine.rs. What `processkit` and the channels report are inputs.
pub mod Finish
pub mod Control
pub mod PumpState
pub mod Pump
pub mod Handle
pub mod Command
pub mod Capture
pub mod Stdin
pub mod Spawn
