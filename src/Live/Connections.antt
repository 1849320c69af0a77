-- ===== src/Live/Connections.antt =====
-- `ConnectionManager` of src/metropulse/application/live_hub.py. A connection is an object, here a
-- number; a send that fails or times out is a `false` of the network.
pub mod Laws
pub mod Examples
use metropulse.Prelude.{
  ℕ, ◌+◌, ◌-◌, Bool, true, false, not, List, [], ◌∷◌, ◌++◌, if◌then◌else◌, ◌==◌, comparable_nat,
  contains, length, filter,
}
use metropulse.Live.Message.{Message}

pub record ConnectionManager : Type 0 where
  pub connections : List ℕ
  -- metropulse_ws_messages_sent_total, metropulse_ws_connections_dropped_total
  pub sent : ℕ
  pub dropped : ℕ

abbrev pub no_connections : ConnectionManager
no_connections = record { connections = []; sent = 0; dropped = 0 }

abbrev pub remove : ℕ → List ℕ → List ℕ
remove c = filter (λ x. not (x == c))

-- set.add
unfoldable pub connect : ℕ → ConnectionManager → ConnectionManager
connect c m =
    if contains c m.connections then m else record m { connections = m.connections ++ c ∷ [] }

-- set.discard
unfoldable pub disconnect : ℕ → ConnectionManager → ConnectionManager
disconnect c m = record m { connections = remove c m.connections }

unfoldable pub disconnect_all : List ℕ → ConnectionManager → ConnectionManager
disconnect_all [] m = m
disconnect_all (c ∷ cs) m = disconnect_all cs (disconnect c m)

-- What other tasks do while a broadcast waits for its sends.
pub data Change : Type 0 where
  joins leaves : ℕ → Change

unfoldable pub change : Change → ConnectionManager → ConnectionManager
unfolding connect disconnect
change (joins c) m = connect c m
change (leaves c) m = disconnect c m

unfoldable pub changes : List Change → ConnectionManager → ConnectionManager
changes [] m = m
changes (c ∷ cs) m = changes cs (change c m)

-- `_send_one` of each target answers whether the send succeeded in time.
abbrev pub Network : Type 0
Network = ℕ → Message → Bool

abbrev pub dead : Network → Message → List ℕ → List ℕ
dead network message targets = filter (λ c. not (network c message)) targets

-- The part of `broadcast` behind the gathered sends.
unfoldable pub drop_dead : List ℕ → List ℕ → ConnectionManager → ConnectionManager
drop_dead targets failed m =
    let after =
      disconnect_all failed (record m { sent = m.sent + (length targets - length failed) }) in
    record after { dropped = after.dropped + length failed }

abbrev pub is_empty : List ℕ → Bool
is_empty [] = true
is_empty (c ∷ cs) = false

-- The targets are those connected at the start; `meanwhile` happens during the sends.
unfoldable pub broadcast : Network → List Change → Message → ConnectionManager → ConnectionManager
broadcast network meanwhile message m =
    if is_empty m.connections
    then m
    else drop_dead m.connections (dead network message m.connections) (changes meanwhile m)
