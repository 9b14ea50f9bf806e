-- ===== src/Claims.antt =====
-- services/claim-intelligence: claims are normalized, put into clusters and written to the graph.
pub mod Cluster
pub mod Worker
mod Tests
