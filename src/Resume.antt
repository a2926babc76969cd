-- ===== src/Resume.antt =====
-- The persisted resume checkpoints: src/resume-checkpoint-schema.ts, src/resume-checkpoint.ts,
-- src/resume-toon.ts and src/resume-resolve.ts.
pub mod State
pub mod Projection
pub mod Schema
pub mod Transition
pub mod Store
pub mod Resolve
