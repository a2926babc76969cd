-- ===== src/Contracts.antt =====
-- The vocabulary of src/contracts.ts, src/errors.ts and src/signals.ts, and `planInstallation` of
-- src/planner.ts.
pub mod Types
pub mod Planner
pub mod Signals
pub mod Effects
