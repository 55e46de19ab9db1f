-- ===== src/Examples.antt =====
-- The theorems at concrete inputs.
mod PidFiles
mod Reaping
mod Files
mod Supervising
mod Guards
mod Pumping
mod Reading
mod Cores
mod Spawning
