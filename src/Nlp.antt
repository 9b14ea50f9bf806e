-- ===== src/Nlp.antt =====
-- services/nlp-pipeline: entities, claims and relations of a document, and the events about them.
pub mod Document
pub mod Mentions
pub mod Relations
pub mod Extract
pub mod Worker
pub mod Tests
