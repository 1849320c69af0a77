-- ===== src/Live/Hub/Order.antt =====
-- The order in which messages pass the hub's queue and its replay buffer
-- (src/metropulse/application/live_hub.py).
use mathlib.Core.List.{append-nil, append_assoc}
use metropulse.Prelude.{
  ◌≡◌, refl, sym, ap, ◌∙◌, Bool, true, false, none, some, List, [], ◌∷◌, ◌++◌, arith, if◌then◌else◌,
  Bool-cases, inl, inr,
}
use metropulse.Prelude.Int.{ℤ}
use metropulse.Live.Message.{Message, Extracted, returned, attribute_error, extract_sequence}
use metropulse.Live.Buffer.{Entry, ReplayBuffer, add, newer, since, empty}
use metropulse.Live.Buffer.Replay.{record_all, Increasing, replay_complete}
use metropulse.Live.Connections.{Network, Change}
use metropulse.Live.Hub.{
  LiveHub, Loop, unset, running, closed, Runner, consuming, is_full, enqueue, submit_on, submit,
  run_callback, deliver, consume, start, Event, started, shut_down, submitted, callback, round,
  changed, step, steps,
}

-- What an event adds to the queue, and what it takes from it.
abbrev offered : LiveHub → Message → List Message
offered h message = if is_full h then [] else message ∷ []

abbrev submitted_by : LiveHub → Loop → Bool → Message → List Message
submitted_by h running true message = offered h message
submitted_by h _ own_loop message = []

abbrev called_back : LiveHub → List Message → List Message
called_back h [] = []
called_back h (message ∷ rest) = offered h message

abbrev taken : Runner → List Message → List Message
taken consuming (message ∷ rest) = message ∷ []
taken consuming [] = []
taken _ queue = []

abbrev admitted_by : LiveHub → Event → List Message
admitted_by h (submitted own_loop message) = submitted_by h h.loop own_loop message
admitted_by h callback = called_back h h.callbacks
admitted_by h _ = []

abbrev consumed_by : LiveHub → Event → List Message
consumed_by h (round network meanwhile) = taken h.runner h.queue
consumed_by h _ = []

unfoldable pub admitted : LiveHub → List Event → List Message
admitted h [] = []
admitted h (e ∷ es) = admitted_by h e ++ admitted (step h e) es

unfoldable pub consumed : LiveHub → List Event → List Message
consumed h [] = []
consumed h (e ∷ es) = consumed_by h e ++ consumed (step h e) es

-- the messages with a sequence number, with it
abbrev pub entry_of : Message → Extracted → List Entry
entry_of message (returned (some n)) = (n, message) ∷ []
entry_of message _ = []

unfoldable pub entries : List Message → List Entry
entries [] = []
entries (m ∷ ms) = entry_of m (extract_sequence m) ++ entries ms

queue-enqueue : (h : LiveHub) (m : Message) → (enqueue m h).queue ≡ h.queue ++ offered h m
unfolding enqueue
queue-enqueue h m = elim (Bool-cases (is_full h)) [
  | inl e ↦ rw e (sym (append-nil h.queue))
  | inr e ↦ rw e
]

queue-start : (l : Loop) (h : LiveHub) → (start l h).queue ≡ h.queue
unfolding start
queue-start unset h = refl
queue-start _ h = refl

queue-submit_on :
    (l : Loop) (own_loop : Bool) (m : Message) (h : LiveHub)
    → (submit_on l own_loop m h).queue ≡ h.queue ++ submitted_by h l own_loop m
queue-submit_on running true m h = unfold submit_on in queue-enqueue h m
queue-submit_on running false m h = unfold submit_on in sym (append-nil h.queue)
queue-submit_on unset own_loop m h = unfold submit_on in sym (append-nil h.queue)
queue-submit_on closed own_loop m h = unfold submit_on in sym (append-nil h.queue)

queue-run_callback :
    (cs : List Message) (h : LiveHub) → (run_callback cs h).queue ≡ h.queue ++ called_back h cs
unfolding run_callback
queue-run_callback [] h = sym (append-nil h.queue)
queue-run_callback (m ∷ cs) h = queue-enqueue (record h { callbacks = cs }) m

module _ (network : Network) (meanwhile : List Change) where
  queue-deliver :
      (m : Message) (x : Extracted) (h : LiveHub)
      → (deliver network meanwhile m x h).queue ≡ h.queue
  unfolding deliver
  queue-deliver m attribute_error h = refl
  queue-deliver m (returned none) h = refl
  queue-deliver m (returned (some n)) h = refl

  queue-consume :
      (r : Runner) (queue : List Message) (h : LiveHub)
      → queue ≡ h.queue
      → taken r queue ++ (consume network meanwhile r queue h).queue ≡ queue
  unfolding consume
  queue-consume consuming (m ∷ rest) h e =
      ap (λ (q : List Message). m ∷ q)
        (queue-deliver m (extract_sequence m) (record h { queue = rest }))
  queue-consume consuming [] h e = sym e
  queue-consume _ queue h e = sym e

  buffer-deliver :
      (m : Message) (x : Extracted) (h : LiveHub)
      → (deliver network meanwhile m x h).buffer ≡ record_all h.buffer (entry_of m x)
  unfolding deliver record_all
  buffer-deliver m attribute_error h = refl
  buffer-deliver m (returned none) h = refl
  buffer-deliver m (returned (some n)) h = refl

  buffer-consume :
      (r : Runner) (queue : List Message) (h : LiveHub)
      → (consume network meanwhile r queue h).buffer ≡ record_all h.buffer (entries (taken r queue))
  unfolding consume entries
  buffer-consume consuming (m ∷ rest) h =
      buffer-deliver m (extract_sequence m) (record h { queue = rest })
      ∙ ap (record_all h.buffer) (sym (append-nil (entry_of m (extract_sequence m))))
  buffer-consume consuming [] h = unfold record_all in refl
  buffer-consume _ queue h = unfold record_all in refl

queue-step :
    (h : LiveHub) (e : Event) → h.queue ++ admitted_by h e ≡ consumed_by h e ++ (step h e).queue
unfolding step
queue-step h started = append-nil h.queue ∙ sym (queue-start h.loop h)
queue-step h shut_down = append-nil h.queue
queue-step h (submitted own_loop m) = unfold submit in sym (queue-submit_on h.loop own_loop m h)
queue-step h callback = sym (queue-run_callback h.callbacks h)
queue-step h (round network meanwhile) =
    append-nil h.queue ∙ sym (queue-consume network meanwhile h.runner h.queue h refl)
queue-step h (changed c) = append-nil h.queue

-- only a round writes to the buffer
buffer-start : (l : Loop) (h : LiveHub) → (start l h).buffer ≡ h.buffer
unfolding start
buffer-start unset h = refl
buffer-start _ h = refl

buffer-enqueue : (m : Message) (h : LiveHub) → (enqueue m h).buffer ≡ h.buffer
unfolding enqueue
buffer-enqueue m h = ground arith

buffer-submit_on :
    (l : Loop) (own_loop : Bool) (m : Message) (h : LiveHub)
    → (submit_on l own_loop m h).buffer ≡ h.buffer
unfolding submit_on
buffer-submit_on running true m h = ground arith
buffer-submit_on running false m h = refl
buffer-submit_on _ own_loop m h = refl

buffer-run_callback : (cs : List Message) (h : LiveHub) → (run_callback cs h).buffer ≡ h.buffer
unfolding run_callback
buffer-run_callback [] h = refl
buffer-run_callback (m ∷ cs) h = buffer-enqueue m (record h { callbacks = cs })

buffer-step :
    (h : LiveHub) (e : Event) → (step h e).buffer ≡ record_all h.buffer (entries (consumed_by h e))
unfolding step entries record_all
buffer-step h started = buffer-start h.loop h
buffer-step h shut_down = refl
buffer-step h (submitted own_loop m) = unfold submit in buffer-submit_on h.loop own_loop m h
buffer-step h callback = buffer-run_callback h.callbacks h
buffer-step h (round network meanwhile) = buffer-consume network meanwhile h.runner h.queue h
buffer-step h (changed c) = refl

record_all-append :
    (b : ReplayBuffer) (xs ys : List Entry)
    → record_all b (xs ++ ys) ≡ record_all (record_all b xs) ys
unfolding record_all
record_all-append b [] ys = refl
record_all-append b ((n, m) ∷ xs) ys = record_all-append (add b n m) xs ys

entries-append : (xs ys : List Message) → entries (xs ++ ys) ≡ entries xs ++ entries ys
unfolding entries
entries-append [] ys = refl
entries-append (m ∷ xs) ys =
    ap (λ (t : List Entry). entry_of m (extract_sequence m) ++ t) (entries-append xs ys)
    ∙ sym (append_assoc (entry_of m (extract_sequence m)) (entries xs) (entries ys))

-- First in, first out: what was in the queue and what it took since then is what has left it,
-- followed by what is in it now, in the same order, whatever happens at the hub.
pub queue-steps :
    (h : LiveHub) (es : List Event) → h.queue ++ admitted h es ≡ consumed h es ++ (steps h es).queue
unfolding admitted consumed steps
queue-steps h [] = append-nil h.queue
queue-steps h (e ∷ es) =
    sym (append_assoc h.queue (admitted_by h e) (admitted (step h e) es))
    ∙ ap (λ (t : List Message). t ++ admitted (step h e) es) (queue-step h e)
    ∙ append_assoc (consumed_by h e) (step h e).queue (admitted (step h e) es)
    ∙ ap (λ (t : List Message). consumed_by h e ++ t) (queue-steps (step h e) es)
    ∙ sym (append_assoc (consumed_by h e) (consumed (step h e) es) (steps (step h e) es).queue)

buffer-steps :
    (h : LiveHub) (es : List Event)
    → (steps h es).buffer ≡ record_all h.buffer (entries (consumed h es))
unfolding consumed steps
buffer-steps h [] = unfold record_all entries in refl
buffer-steps h (e ∷ es) =
    buffer-steps (step h e) es
    ∙ ap (λ (b : ReplayBuffer). record_all b (entries (consumed (step h e) es))) (buffer-step h e)
    ∙ sym
        (record_all-append h.buffer (entries (consumed_by h e)) (entries (consumed (step h e) es)))
    ∙ ap (record_all h.buffer) (sym (entries-append (consumed_by h e) (consumed (step h e) es)))

-- A hub that starts with an empty buffer: whatever happened at it since, if the numbered messages
-- that its queue let through had increasing numbers, then a client that reconnects with `last` and
-- is sent a replay is sent every one of them above `last`, in order.
pub reconnect_complete :
    (h : LiveHub) (es : List Event) (last : ℤ) (ms : List Message)
    → h.buffer.buffer ≡ []
    → Increasing (entries (consumed h es))
    → since (steps h es).buffer last ≡ some ms
    → ms ≡ newer last (entries (consumed h es))
reconnect_complete h es last ms fresh increasing e =
    replay_complete h.buffer.max_size (entries (consumed h es)) last ms increasing (
      ap (λ (b : ReplayBuffer). since b last)
        (sym (
          buffer-steps h es
          ∙ ap (λ (b : ReplayBuffer). record_all b (entries (consumed h es))) is_fresh))
      ∙ e)
  where
    is_fresh : h.buffer ≡ empty h.buffer.max_size
    is_fresh = ground arith
