-- ===== src/Gtfs.antt =====
-- src/metropulse/domain/gtfs_time.py: GTFS times and dates.
pub mod Text
pub mod Time
pub mod Date
