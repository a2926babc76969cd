-- ===== src/Init.antt =====
-- The initialisation dialogue: src/init/.
pub mod Types
pub mod Targets
pub mod Steps
pub mod Run
