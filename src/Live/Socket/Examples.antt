-- ===== src/Live/Socket/Examples.antt =====
-- A client that has seen message 1 opens `/ws/live` after the hub has let 1 and 2 through.
use metropulse.Prelude.Int.{pos}
use metropulse.Prelude.Json.{int, str, obj, field, end}
use metropulse.Live.Message.{json}
use metropulse.Live.Socket.{Received, frame}

abbrev reconnects : Received
reconnects =
    frame (json (obj (field "type" (str "subscribe") (field "last_seq" (int (pos 1)) end))))
