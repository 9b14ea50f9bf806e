-- ===== src/Entities.antt =====
-- services/entity-resolution/resolver.py: entity identifiers for the mentions in documents.
pub mod Slug
pub mod Resolve
pub mod Worker
mod Tests
