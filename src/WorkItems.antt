-- ===== src/WorkItems.antt =====
-- Work-item classification and its projections: src/work-items.ts.
pub mod Types
pub mod Catalog
pub mod Projections
pub mod Classify
pub mod Plan
pub mod Markers
