-- ===== src/ToolPreparation.antt =====
-- The preparation of tools before an installation: src/init/tool-preparation/.
pub mod Types
pub mod Gh
pub mod Run
