-- ===== src/Resume/Schema.antt =====
-- The validators of src/resume-checkpoint-schema.ts.
pub mod Fields
pub mod Names
pub mod Members
pub mod Print
pub mod States
pub mod Checkpoints
pub mod Laws
