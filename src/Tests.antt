-- ===== src/Tests.antt =====
-- Runs of the model and its theorems at concrete inputs.
mod Samples
mod Report
mod Benchmark
mod Builder
mod Cluster
mod Campaign
mod Cost
mod Enrich
mod Enricher
mod Query
mod Verify
