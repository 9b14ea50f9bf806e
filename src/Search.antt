-- ===== src/Search.antt =====
-- services/search-projector/worker.py: documents, entities and claims become entries of the search
-- index.
pub mod Project
pub mod Process
pub mod Scope
pub mod Writes
pub mod Feeds
mod Tests
