-- ===== src/Live/Socket.antt =====
-- `/ws/live` of src/metropulse/api/ws/live.py: the subscribe frame and what a client is sent first.
pub mod Laws
pub mod Examples
use metropulse.Prelude.{
  ℕ, String, Bool, false, Option, none, some, List, [], ◌∷◌, ◌==◌, comparable_string, if◌then◌else◌,
}
use metropulse.Prelude.Int.{ℤ}
use metropulse.Prelude.Json.{Json, null, str, obj, Fields, get_field, as_int}
use metropulse.Live.Message.{Message, unparseable, json}
use metropulse.Live.Buffer.{ReplayBuffer, since}
use metropulse.Live.Connections.{ConnectionManager, connect}

-- What comes of waiting for the first frame.
pub data Received : Type 0 where
  frame : Message → Received
  timed_out disconnected : Received

pub data ProtocolError : Type 0 where
  timeout not_json not_subscribe bad_last_seq : ProtocolError

-- The return value of `_read_subscribe`, its TimeoutError or ValueError, or WebSocketDisconnect.
pub data Subscribe : Type 0 where
  last_seq : Option ℤ → Subscribe
  refused : ProtocolError → Subscribe
  gone : Subscribe

-- `frame.get("type") != "subscribe"`
abbrev pub is_subscribe : Option Json → Bool
is_subscribe (some (str text)) = text == "subscribe"
is_subscribe _ = false

-- `null` and an absent field are both None
abbrev pub read_last_seq : Option Json → Subscribe
read_last_seq none = last_seq none
read_last_seq (some null) = last_seq none
read_last_seq (some v) = elim (as_int v) [
  | some n ↦ last_seq (some n)
  | none ↦ refused bad_last_seq
]

unfoldable pub read_frame : Message → Subscribe
read_frame (unparseable text) = refused not_json
read_frame (json (obj fields)) =
    if is_subscribe (get_field "type" fields)
    then read_last_seq (get_field "last_seq" fields)
    else refused not_subscribe
read_frame (json _) = refused not_subscribe

unfoldable pub read_subscribe : Received → Subscribe
unfolding read_frame
read_subscribe (frame message) = read_frame message
read_subscribe timed_out = refused timeout
read_subscribe disconnected = gone

-- What the endpoint does to a new client before the hub takes over.
pub data Opening : Type 0 where
  -- close code 1003 with the error as reason
  closed : ProtocolError → Opening
  left : Opening
  -- the client has been sent these frames and is then registered
  welcomed : List Message → Opening

abbrev pub first_frames : Option (List Message) → Message → List Message
first_frames (some replay) snapshot = replay
first_frames none snapshot = snapshot ∷ []

abbrev pub replay_for : ReplayBuffer → Option ℤ → Option (List Message)
replay_for buffer none = none
replay_for buffer (some n) = since buffer n

-- `snapshot`: the frame that `_snapshot_message` builds. `delivered`: no WebSocketDisconnect while
-- the frames are sent.
abbrev pub welcome : ReplayBuffer → Message → Bool → Subscribe → Opening
welcome buffer snapshot delivered (refused error) = closed error
welcome buffer snapshot delivered gone = left
welcome buffer snapshot delivered (last_seq last) =
    if delivered then welcomed (first_frames (replay_for buffer last) snapshot) else left

unfoldable pub live_updates : ReplayBuffer → Message → Bool → Received → Opening
live_updates buffer snapshot delivered received =
    welcome buffer snapshot delivered (read_subscribe received)

-- `hub.manager.connect(websocket)`, which only a welcomed client reaches
unfoldable pub register : ℕ → Opening → ConnectionManager → ConnectionManager
register client (welcomed frames) m = connect client m
register client _ m = m
