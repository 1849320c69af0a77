-- ===== src/Live/Socket/Laws.antt =====
-- What a client that opens `/ws/live` is sent, against everything that the hub has let through
-- (src/metropulse/api/ws/live.py, src/metropulse/application/live_hub.py).
use metropulse.Live.Message.{Message}
