-- ===== src/AuthFlow.antt =====
-- The detector missing-new-admin-auth of nightly/2026-05-28/detectors/soroban: its data-flow analysis
-- of who signs before an admin is stored.
pub mod Mir
pub mod Domain
pub mod Places
pub mod Analysis
pub mod Engine
pub mod Summary
pub mod Functions
pub mod Entries
pub mod Crate
