-- ===== src/Query.antt =====
-- src/query: the questions that the graph answers.
pub mod Types
pub mod Clamp
pub mod Rows
pub mod Radius
pub mod Allowlist
pub mod Hotspots
pub mod Campaign
pub mod Components
pub mod Cost
