-- ===== src/Live/Connections/Examples.antt =====
-- Two clients, of which the second no longer answers; a third joins during the broadcast.
use metropulse.Prelude.{[], ◌∷◌, ◌≡◌, ◌≢◌, ◌+◌, not, ◌&&◌, comparable_nat, nat_eqb, contains}
use metropulse.Live.Message.{unparseable}
use metropulse.Live.Connections.{ConnectionManager, Network, joins, changes, broadcast}
use metropulse.Live.Connections.Laws.{failed, has-broadcast, counters-broadcast}

abbrev two_clients : ConnectionManager
two_clients = record { connections = 1 ∷ 2 ∷ []; sent = 10; dropped = 0 }

abbrev second_is_dead : Network
second_is_dead c message = not (nat_eqb c 2)

not_alone : two_clients.connections ≢ []
not_alone e = cc

has-broadcast_example :
    contains 2 (broadcast second_is_dead (joins 3 ∷ []) (unparseable "m") two_clients).connections
    ≡ (contains 2 (changes (joins 3 ∷ []) two_clients).connections
        && not (failed second_is_dead (unparseable "m") 2 two_clients))
has-broadcast_example =
    has-broadcast second_is_dead (joins 3 ∷ []) (unparseable "m") 2 two_clients not_alone

counters-broadcast_example :
    (broadcast second_is_dead (joins 3 ∷ []) (unparseable "m") two_clients).sent
      + (broadcast second_is_dead (joins 3 ∷ []) (unparseable "m") two_clients).dropped
    ≡ 12
counters-broadcast_example =
    counters-broadcast second_is_dead (joins 3 ∷ []) (unparseable "m") two_clients
