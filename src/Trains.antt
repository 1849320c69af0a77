-- ===== src/Trains.antt =====
-- Trains on their trips: src/metropulse/domain/geometry.py and
-- src/metropulse/application/route_resolver.py.
pub mod Geometry
pub mod Mapper
pub mod Resolver
pub mod Location
pub mod Examples
