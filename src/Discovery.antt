-- ===== src/Discovery.antt =====
-- The catalog of discovery signals: src/discovery-catalog.ts.
pub mod Types
pub mod Fields
pub mod Parse
pub mod Laws
