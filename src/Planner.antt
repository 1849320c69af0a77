-- ===== src/Planner.antt =====
-- src/metropulse/application/journey_planner.py and domain/journey.py: route search over the network.
pub mod Number
pub mod Search
pub mod Network
pub mod Graph
pub mod Journey
