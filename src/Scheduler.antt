-- ===== src/Scheduler.antt =====
-- The filters and weighers that the cloud adds to the schedulers of OpenStack.
pub mod AntiAffinity
pub mod AccessFilter
mod Tests
