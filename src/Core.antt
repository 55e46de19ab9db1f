-- ===== src/Core.antt =====
-- The legacy instance of a core: src/core.
pub mod Definition
pub mod CheckOutput
pub mod PipeReader
pub mod Builder
pub mod CheckConfig
pub mod Instance
