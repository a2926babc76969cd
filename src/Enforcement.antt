-- ===== src/Enforcement.antt =====
-- The bridge to the enforcement provider, integrations/microsoft-agent-governance-toolkit/bridge.
pub mod Envelope
pub mod Files
pub mod Engine
pub mod Provider
pub mod Hook
