-- ===== src/Tests.antt =====
-- The theorems at concrete inputs.
mod Checkpoints
mod Planning
mod Tools
mod Dialogue
mod Enforcement
mod Blocks
mod Catalogs
