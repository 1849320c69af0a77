-- ===== src/Live/Hub/Invariant.antt =====
-- The bounds of the hub (src/metropulse/application/live_hub.py).
use metropulse.Prelude.{
  ◌≤◌, ◌<◌, ◌≡◌, refl, sym, Bool, true, false, none, some, List, [], ◌∷◌, arith, Bool-cases, inl,
  inr, length, length-append, comparable_nat, Distinct,
}
use metropulse.Live.Message.{Message, Extracted, returned, attribute_error, extract_sequence}
use metropulse.Live.Buffer.{add}
use metropulse.Live.Buffer.Replay.{length-add-le}
use metropulse.Live.Connections.{Network, Change}
use metropulse.Live.Connections.Laws.{change-Distinct, broadcast-Distinct}
use metropulse.Live.Hub.{
  LiveHub, Loop, unset, running, closed, Runner, consuming, is_full, enqueue, submit_on, submit,
  run_callback, deliver, consume, start, Event, started, shut_down, submitted, callback, round,
  changed, step, steps,
}

pub record IsBounded (h : LiveHub) : Type 0 where
  -- a `max_queue` of zero is no bound
  pub queue_bound : 0 < h.max_queue → length h.queue ≤ h.max_queue
  pub buffer_bound : length h.buffer.buffer ≤ h.buffer.max_size
  pub registered_once : Distinct h.manager.connections

enqueue-IsBounded : (m : Message) (h : LiveHub) → IsBounded h → IsBounded (enqueue m h)
unfolding enqueue
enqueue-IsBounded m h v = elim (Bool-cases (is_full h)) [
  | inl e ↦ rw e v
  | inr e ↦ rw e (record {
    queue_bound = λ pos. ground (arith, length-append h.queue (m ∷ []));
    buffer_bound = v.buffer_bound;
    registered_once = v.registered_once;
  })
]

submit_on-IsBounded :
    (l : Loop) (own_loop : Bool) (m : Message) (h : LiveHub)
    → IsBounded h
    → IsBounded (submit_on l own_loop m h)
submit_on-IsBounded running true m h v = unfold submit_on in enqueue-IsBounded m h v
submit_on-IsBounded running false m h v =
    unfold submit_on in
    record {
      queue_bound = v.queue_bound;
      buffer_bound = v.buffer_bound;
      registered_once = v.registered_once;
    }
submit_on-IsBounded unset own_loop m h v = unfold submit_on in v
submit_on-IsBounded closed own_loop m h v = unfold submit_on in v

run_callback-IsBounded :
    (cs : List Message) (h : LiveHub) → IsBounded h → IsBounded (run_callback cs h)
unfolding run_callback
run_callback-IsBounded [] h v = v
run_callback-IsBounded (m ∷ cs) h v =
    enqueue-IsBounded m (record h { callbacks = cs })
      (record {
        queue_bound = v.queue_bound;
        buffer_bound = v.buffer_bound;
        registered_once = v.registered_once;
      })

module _ (network : Network) (meanwhile : List Change) where
  deliver-IsBounded :
      (m : Message) (x : Extracted) (h : LiveHub)
      → IsBounded h
      → IsBounded (deliver network meanwhile m x h)
  unfolding deliver
  deliver-IsBounded m attribute_error h v = record {
    queue_bound = v.queue_bound;
    buffer_bound = v.buffer_bound;
    registered_once = v.registered_once;
  }
  deliver-IsBounded m (returned none) h v = record {
    queue_bound = v.queue_bound;
    buffer_bound = v.buffer_bound;
    registered_once = broadcast-Distinct network meanwhile m h.manager v.registered_once;
  }
  deliver-IsBounded m (returned (some n)) h v = record {
    queue_bound = v.queue_bound;
    buffer_bound = unfold add in length-add-le h.buffer n m v.buffer_bound;
    registered_once = broadcast-Distinct network meanwhile m h.manager v.registered_once;
  }

  consume-IsBounded :
      (r : Runner) (queue : List Message) (h : LiveHub)
      → queue ≡ h.queue
      → IsBounded h
      → IsBounded (consume network meanwhile r queue h)
  unfolding consume
  consume-IsBounded consuming (m ∷ rest) h e v =
      deliver-IsBounded m (extract_sequence m) (record h { queue = rest })
        (record {
          queue_bound = λ pos. shorter (v.queue_bound pos);
          buffer_bound = v.buffer_bound;
          registered_once = v.registered_once;
        })
    where
      shorter : length h.queue ≤ h.max_queue → length rest ≤ h.max_queue
      shorter b = ground (arith, sym e)
  consume-IsBounded consuming [] h e v = v
  consume-IsBounded _ queue h e v = v

start-IsBounded : (l : Loop) (h : LiveHub) → IsBounded h → IsBounded (start l h)
unfolding start
start-IsBounded unset h v = record {
  queue_bound = v.queue_bound;
  buffer_bound = v.buffer_bound;
  registered_once = v.registered_once;
}
start-IsBounded _ h v = v

step-IsBounded : (h : LiveHub) (e : Event) → IsBounded h → IsBounded (step h e)
unfolding step
step-IsBounded h started v = start-IsBounded h.loop h v
step-IsBounded h shut_down v = record {
  queue_bound = v.queue_bound;
  buffer_bound = v.buffer_bound;
  registered_once = v.registered_once;
}
step-IsBounded h (submitted own_loop m) v =
    unfold submit in submit_on-IsBounded h.loop own_loop m h v
step-IsBounded h callback v = run_callback-IsBounded h.callbacks h v
step-IsBounded h (round network meanwhile) v =
    consume-IsBounded network meanwhile h.runner h.queue h refl v
step-IsBounded h (changed c) v = record {
  queue_bound = v.queue_bound;
  buffer_bound = v.buffer_bound;
  registered_once = change-Distinct c h.manager v.registered_once;
}

-- Whatever happens at a hub, in whatever order: its queue stays within `max_queue` (unless that is
-- zero, asyncio's "no bound"), its replay buffer within `max_size`, and no connection is registered
-- twice, if that was so at the start.
pub steps-IsBounded : (h : LiveHub) (es : List Event) → IsBounded h → IsBounded (steps h es)
unfolding steps
steps-IsBounded h [] v = v
steps-IsBounded h (e ∷ es) v = steps-IsBounded (step h e) es (step-IsBounded h e v)
