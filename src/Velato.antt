-- ===== src/Velato.antt =====
-- services/velato-engine: the stack machine that evaluates alert policies.
pub mod Ops
pub mod Errors
pub mod Floats
pub mod Ir
pub mod Analysis
pub mod Compile
pub mod Step
pub mod Execute
pub mod Midi
pub mod Serialize
pub mod Library
mod Tests
