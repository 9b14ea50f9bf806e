-- ===== src/Nlp/Worker.antt =====
-- services/nlp-pipeline/worker.py.
pub mod Source
pub mod Mutations
pub mod Records
pub mod Inputs
pub mod Process
pub mod Contract
pub mod Limits
pub mod Lookups
pub mod Delivery
