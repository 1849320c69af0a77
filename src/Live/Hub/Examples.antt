-- ===== src/Live/Hub/Examples.antt =====
-- A hub that is started, is given three numbered messages and lets two of them through.
use metropulse.Prelude.{ℕ, true, false, List, [], ◌∷◌, ◌++◌, ◌≡◌, arith, comparable_nat}
use metropulse.Prelude.Int.{pos}
use metropulse.Prelude.Json.{int, obj, field, end}
use metropulse.Live.Message.{Message, json}
use metropulse.Live.Buffer.{empty}
use metropulse.Live.Connections.{no_connections, Network}
use metropulse.Live.Hub.{LiveHub, unset, idle, Event, started, submitted, callback, round, steps}
use metropulse.Live.Hub.Order.{admitted, consumed, queue-steps}
use metropulse.Live.Hub.Invariant.{IsBounded, steps-IsBounded}

abbrev pub update : ℕ → Message
update n = json (obj (field "seq" (int (pos n)) end))

abbrev pub new_hub : LiveHub
new_hub = record {
  manager = no_connections;
  buffer = empty 2;
  queue = [];
  max_queue = 8;
  loop = unset;
  runner = idle;
  callbacks = [];
}

abbrev network : Network
network c message = true

abbrev pub day : List Event
day =
    started
    ∷ submitted true (update 1)
    ∷ submitted false (update 2)
    ∷ callback
    ∷ round network []
    ∷ submitted true (update 3)
    ∷ round network []
    ∷ []

queue-steps_example : [] ++ admitted new_hub day ≡ consumed new_hub day ++ (steps new_hub day).queue
queue-steps_example = queue-steps new_hub day

new_hub-IsBounded : IsBounded new_hub
new_hub-IsBounded = record {
  queue_bound = λ p. omega arith;
  buffer_bound = omega arith;
  registered_once = tt;
}

steps-IsBounded_example : IsBounded (steps new_hub day)
steps-IsBounded_example = steps-IsBounded new_hub day new_hub-IsBounded
