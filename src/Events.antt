-- ===== src/Events.antt =====
-- What the workers share: reading an event as Python reads a dict, its envelope, and publishing.
pub mod Values
pub mod Envelope
pub mod Publish
pub mod Quiet
pub mod Tests
