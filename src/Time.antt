-- ===== src/Time.antt =====
-- Kernel/Source/Time: the calendar and the timers.
pub mod Calendar
pub mod Subscribers
