-- ===== src/Realtime.antt =====
-- The realtime engine's snapshots: src/metropulse/application/snapshot.py and
-- src/metropulse/infrastructure/redis/vehicle_store.py.
pub mod Snapshot
pub mod Store
