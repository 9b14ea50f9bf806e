-- ===== src/Config.antt =====
-- services/python_common/production_config.py: the environment a worker may start with in
-- production.
pub mod Env
pub mod Check
pub mod Validate
pub mod Secure
pub mod Reports
pub mod Unset
pub mod Kafka
mod Tests
