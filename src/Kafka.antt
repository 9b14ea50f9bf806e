-- ===== src/Kafka.antt =====
-- The Kafka side of the Python workers: the outside world, the DLQ envelope, the handling of a
-- message and the poll loop.
pub mod World
pub mod Envelope
pub mod Poison
pub mod Loop
pub mod Commits
pub mod Delivery
pub mod Isolation
pub mod Progress
pub mod Cells
pub mod Tests
