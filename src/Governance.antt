-- ===== src/Governance.antt =====
-- The governance contract: src/governance-contract.ts and src/routing-catalog.ts.
pub mod Dependencies
pub mod Routing
