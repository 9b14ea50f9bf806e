-- ===== src/Entities/Worker.antt =====
-- services/entity-resolution/worker.py: mentions and relations become mutations of the graph.
pub mod Mutations
pub mod Relations
pub mod Process
pub mod Contract
pub mod Delivery
pub mod Tests
