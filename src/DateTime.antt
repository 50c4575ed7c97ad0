-- ===== src/DateTime.antt =====
-- Dates and times: broken-down times with their units, and the detection of started periods.
pub mod Entry
pub mod Periods
