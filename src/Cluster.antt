-- ===== src/Cluster.antt =====
-- src/cluster: communities of the graph, their labels and their names.
pub mod Detector
pub mod Labeler
pub mod Clusterer
pub mod Namer
