-- ===== src/Live.antt =====
-- src/metropulse/application/live_hub.py and api/ws/live.py: live updates over WebSockets.
pub mod Message
pub mod Buffer
pub mod Connections
pub mod Hub
pub mod Socket
