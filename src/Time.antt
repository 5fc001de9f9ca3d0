-- ===== src/Time.antt =====
-- Dates and time zones.
pub mod Date
pub mod Zone
