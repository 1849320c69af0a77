-- ===== src/Static.antt =====
-- The timetable files (src/metropulse/application/static_loader.py and validation.py).
pub mod Numbers
pub mod Rows
pub mod Columns
pub mod Checks
pub mod Validation
pub mod Archive
pub mod Tables
pub mod Conversion
pub mod Loader
pub mod Examples
