-- ===== src/Graph.antt =====
-- services/graph-projector/worker.py: mutations of the graph and the statements they become.
pub mod Json
pub mod Statement
pub mod Queries
pub mod Scope
pub mod Projector
pub mod Writes
pub mod Letters
pub mod Contract
mod Tests
