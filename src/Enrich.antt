-- ===== src/Enrich.antt =====
-- src/enrich: a V8 CPU profile is distilled into frames and joined onto the nodes of the graph.
pub mod Profile
pub mod Join
pub mod CallTree
pub mod Enricher
