-- ===== src/Notify.antt =====
-- services/notification-worker/worker.py: alerts become push notifications.
pub mod Deliver
pub mod Process
pub mod Reports
mod Tests
