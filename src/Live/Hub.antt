-- ===== src/Live/Hub.antt =====
-- `LiveHub` of src/metropulse/application/live_hub.py: the bounded queue between the Redis
-- subscriber and the clients, and the task that empties it.
pub mod Order
pub mod Invariant
pub mod Examples
use metropulse.Prelude.{
  ℕ, zero, suc, Bool, true, false, ◌&&◌, not, Option, none, some, List, [], ◌∷◌, ◌++◌, ltb, leb,
  if◌then◌else◌, length,
}
use metropulse.Prelude.Int.{ℤ}
use metropulse.Live.Message.{Message, Extracted, returned, attribute_error, extract_sequence}
use metropulse.Live.Buffer.{ReplayBuffer, add}
use metropulse.Live.Connections.{ConnectionManager, Change, change, Network, broadcast}

-- `self._loop`: unset until `run` starts; closed when the process shuts down
pub data Loop : Type 0 where
  unset running closed : Loop

-- The task that runs `run`: an exception ends it, and nobody restarts it.
pub data Runner : Type 0 where
  idle consuming failed : Runner

pub record LiveHub : Type 0 where
  pub manager : ConnectionManager
  pub buffer : ReplayBuffer
  pub queue : List Message
  pub max_queue : ℕ
  pub loop : Loop
  pub runner : Runner
  -- what other threads handed to `call_soon_threadsafe`
  pub callbacks : List Message

-- asyncio.Queue: a `maxsize` of zero is no bound
abbrev pub is_full : LiveHub → Bool
is_full h = ltb 0 h.max_queue && leb h.max_queue (length h.queue)

unfoldable pub enqueue : Message → LiveHub → LiveHub
enqueue message h = if is_full h then h else record h { queue = h.queue ++ message ∷ [] }

-- `own_loop`: the caller runs on the hub's event loop
unfoldable pub submit_on : Loop → Bool → Message → LiveHub → LiveHub
unfolding enqueue
submit_on running true message h = enqueue message h
submit_on running false message h = record h { callbacks = h.callbacks ++ message ∷ [] }
submit_on _ own_loop message h = h

unfoldable pub submit : Bool → Message → LiveHub → LiveHub
submit own_loop message h = submit_on h.loop own_loop message h

-- The event loop runs the oldest callback.
unfoldable pub run_callback : List Message → LiveHub → LiveHub
run_callback [] h = h
run_callback (message ∷ rest) h = enqueue message (record h { callbacks = rest })

-- the body of the loop of `run` behind `_extract_sequence`
unfoldable pub deliver : Network → List Change → Message → Extracted → LiveHub → LiveHub
deliver network meanwhile message attribute_error h = record h { runner = failed }
deliver network meanwhile message (returned none) h = record h {
  manager = broadcast network meanwhile message h.manager;
}
deliver network meanwhile message (returned (some sequence)) h = record h {
  buffer = add h.buffer sequence message;
  manager = broadcast network meanwhile message h.manager;
}

-- one round of `run`; with an empty queue it waits
unfoldable pub consume : Network → List Change → Runner → List Message → LiveHub → LiveHub
consume network meanwhile consuming (message ∷ rest) h =
    deliver network meanwhile message (extract_sequence message) (record h { queue = rest })
consume network meanwhile consuming [] h = h
consume network meanwhile _ queue h = h

-- `run` is called once, when the API process starts
unfoldable pub start : Loop → LiveHub → LiveHub
start unset h = record h { loop = running; runner = consuming }
start _ h = h

-- What can happen at a hub, in any order.
pub data Event : Type 0 where
  started shut_down : Event
  submitted : Bool → Message → Event
  callback : Event
  round : Network → List Change → Event
  changed : Change → Event

unfoldable pub step : LiveHub → Event → LiveHub
step h started = start h.loop h
step h shut_down = record h { loop = closed; runner = idle }
step h (submitted own_loop message) = submit own_loop message h
step h callback = run_callback h.callbacks h
step h (round network meanwhile) = consume network meanwhile h.runner h.queue h
step h (changed c) = record h { manager = change c h.manager }

unfoldable pub steps : LiveHub → List Event → LiveHub
steps h [] = h
steps h (e ∷ es) = steps (step h e) es
