-- ===== src/Commuter.antt =====
-- The services for commuters: src/metropulse/application/commuter.
pub mod Journeys
pub mod Sessions
