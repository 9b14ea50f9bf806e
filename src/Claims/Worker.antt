-- ===== src/Claims/Worker.antt =====
-- services/claim-intelligence/worker.py: graph_mutations and handle_one_message.
pub mod Mutations
pub mod Process
pub mod Contract
pub mod Delivery
