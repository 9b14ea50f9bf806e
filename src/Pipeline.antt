-- ===== src/Pipeline.antt =====
-- The way of a document through the workers under services/: what one publishes, the next one reads.
pub mod Claims
pub mod Mentions
pub mod Relations
mod Tests
