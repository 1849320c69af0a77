-- ===== src/Live/Connections/Laws.antt =====
-- Who is connected after each operation (src/metropulse/application/live_hub.py).
use metropulse.Prelude.{
  ℕ, ◌+◌, ◌-◌, ◌≤◌, ◌≡◌, ◌≢◌, refl, Bool, true, false, not, ◌&&◌, ◌||◌, List, [], ◌∷◌, ◌++◌,
  comparable_nat, nat_eqb, nat_eqb_iff, ap, contains, contains-append, Distinct, length,
  length-filter-le, filter, arith, Bool-cases, inl, inr,
}
use metropulse.Live.Message.{Message}
use metropulse.Live.Connections.{
  ConnectionManager, remove, connect, disconnect, disconnect_all, Change, joins, leaves, change,
  changes, Network, dead, drop_dead, is_empty, broadcast,
}

contains-remove :
    (c d : ℕ) (xs : List ℕ) → contains d (remove c xs) ≡ (contains d xs && not (nat_eqb d c))
contains-remove c d [] = refl
contains-remove c d (x ∷ xs) = ground (arith, contains-remove c d xs)

contains-filter :
    (p : ℕ → Bool) (d : ℕ) (xs : List ℕ) → contains d (filter p xs) ≡ (contains d xs && p d)
contains-filter p d [] = refl
contains-filter p d (x ∷ xs) = elim (Bool-cases (nat_eqb x d)) [
  | inl e ↦
      let same : x ≡ d = (nat_eqb_iff x d).0 e in ground (arith, contains-filter p d xs, ap p same)
  | inr e ↦ ground (arith, contains-filter p d xs)
]

Distinct-filter : (p : ℕ → Bool) (xs : List ℕ) → Distinct xs → Distinct (filter p xs)
Distinct-filter p [] h = tt
Distinct-filter p (x ∷ xs) h = elim (Bool-cases (p x)) [
  | inl e ↦ rw e (rw (contains-filter p x xs, h.0), Distinct-filter p xs h.1)
  | inr e ↦ rw e (Distinct-filter p xs h.1)
]

Distinct-snoc :
    (c : ℕ) (xs : List ℕ) → Distinct xs → contains c xs ≡ false → Distinct (xs ++ c ∷ [])
Distinct-snoc c [] h k = (refl, tt)
Distinct-snoc c (x ∷ xs) h k =
    (ground (arith, contains-append x xs (c ∷ [])), Distinct-snoc c xs h.1 (ground arith))

-- membership after a change
abbrev has : ℕ → ConnectionManager → Bool
has d m = contains d m.connections

has-connect : (c d : ℕ) (m : ConnectionManager) → has d (connect c m) ≡ (has d m || nat_eqb d c)
unfolding connect
has-connect c d m = elim (Bool-cases (nat_eqb d c)) [
  | inl e ↦
      let same : d ≡ c = (nat_eqb_iff d c).0 e in
      ground (arith, contains-append d m.connections (c ∷ []), ap (λ (x : ℕ). has x m) same)
  | inr e ↦ ground (arith, contains-append d m.connections (c ∷ []))
]

has-disconnect_all :
    (cs : List ℕ) (d : ℕ) (m : ConnectionManager)
    → has d (disconnect_all cs m) ≡ (has d m && not (contains d cs))
unfolding disconnect_all disconnect
has-disconnect_all [] d m = ground arith
has-disconnect_all (c ∷ cs) d m =
    ground (arith, has-disconnect_all cs d (disconnect c m), contains-remove c d m.connections)

-- a target whose send failed
abbrev pub failed : Network → Message → ℕ → ConnectionManager → Bool
failed network message d m = has d m && not (network d message)

drop_dead-has :
    (targets gone : List ℕ) (d : ℕ) (m : ConnectionManager)
    → has d (drop_dead targets gone m) ≡ (has d m && not (contains d gone))
unfolding drop_dead
drop_dead-has targets gone d m = has-disconnect_all gone d _

not_empty : (cs : List ℕ) → cs ≢ [] → is_empty cs ≡ false
not_empty [] h = absurd (h refl)
not_empty (c ∷ cs) h = refl

-- After a broadcast to at least one client, a client is connected exactly if it is connected after
-- what happened during the sends and it is no target whose send failed or timed out.
pub has-broadcast :
    (network : Network) (meanwhile : List Change) (message : Message) (d : ℕ)
    (m : ConnectionManager)
    → m.connections ≢ []
    → has d (broadcast network meanwhile message m)
      ≡ (has d (changes meanwhile m) && not (failed network message d m))
has-broadcast network meanwhile message d m h =
    unfold broadcast in
    rw
      (
        not_empty m.connections h,
        drop_dead-has m.connections (dead network message m.connections) d (changes meanwhile m),
        contains-filter (λ c. not (network c message)) d m.connections,
      )
      refl

-- Every target is counted, as sent or as dropped.
counters-disconnect_all :
    (cs : List ℕ) (m : ConnectionManager)
    → ((disconnect_all cs m).sent ≡ m.sent) × ((disconnect_all cs m).dropped ≡ m.dropped)
unfolding disconnect_all disconnect
counters-disconnect_all [] m = (refl, refl)
counters-disconnect_all (c ∷ cs) m = counters-disconnect_all cs (disconnect c m)

counters-change :
    (c : Change) (m : ConnectionManager)
    → ((change c m).sent ≡ m.sent) × ((change c m).dropped ≡ m.dropped)
unfolding change
counters-change (joins c) m = ground arith
counters-change (leaves c) m = ground arith

counters-changes :
    (cs : List Change) (m : ConnectionManager)
    → ((changes cs m).sent ≡ m.sent) × ((changes cs m).dropped ≡ m.dropped)
unfolding changes
counters-changes [] m = (refl, refl)
counters-changes (c ∷ cs) m = ground (arith, counters-change c m, counters-changes cs (change c m))

drop_dead-counters :
    (targets gone : List ℕ) (m : ConnectionManager)
    → length gone ≤ length targets
    → (drop_dead targets gone m).sent + (drop_dead targets gone m).dropped
      ≡ m.sent + m.dropped + length targets
unfolding drop_dead
drop_dead-counters targets gone m h =
    let after = record m { sent = m.sent + (length targets - length gone) } in
    ground (arith, counters-disconnect_all gone after)

-- A broadcast counts each of its targets once, as a message sent or as a connection dropped.
pub counters-broadcast :
    (network : Network) (meanwhile : List Change) (message : Message) (m : ConnectionManager)
    → (broadcast network meanwhile message m).sent + (broadcast network meanwhile message m).dropped
      ≡ m.sent + m.dropped + length m.connections
unfolding broadcast
counters-broadcast network meanwhile message m = elim (Bool-cases (is_empty m.connections)) [
  | inl e ↦ rw e (omega (arith, length-empty m.connections e))
  | inr e ↦ rw e (
      omega (
        arith,
        drop_dead-counters m.connections (dead network message m.connections) (changes meanwhile m)
            (length-filter-le (λ c. not (network c message)) m.connections),
        counters-changes meanwhile m,
      ))
]
  where
    length-empty : (cs : List ℕ) → is_empty cs ≡ true → length cs ≡ 0
    length-empty [] h = refl
    length-empty (c ∷ cs) h = cc

-- Invariant: nobody is registered twice, whatever joins, leaves and is broadcast.
connect-Distinct :
    (c : ℕ) (m : ConnectionManager) → Distinct m.connections → Distinct (connect c m).connections
unfolding connect
connect-Distinct c m h = elim (Bool-cases (contains c m.connections)) [
  | inl e ↦ rw e h
  | inr e ↦ rw e (Distinct-snoc c m.connections h e)
]

disconnect-Distinct :
    (c : ℕ) (m : ConnectionManager) → Distinct m.connections → Distinct (disconnect c m).connections
unfolding disconnect
disconnect-Distinct c m h = Distinct-filter (λ x. not (nat_eqb x c)) m.connections h

disconnect_all-Distinct :
    (cs : List ℕ) (m : ConnectionManager)
    → Distinct m.connections
    → Distinct (disconnect_all cs m).connections
unfolding disconnect_all
disconnect_all-Distinct [] m h = h
disconnect_all-Distinct (c ∷ cs) m h =
    disconnect_all-Distinct cs (disconnect c m) (disconnect-Distinct c m h)

pub change-Distinct :
    (c : Change) (m : ConnectionManager)
    → Distinct m.connections
    → Distinct (change c m).connections
change-Distinct (joins c) m h = unfold change in connect-Distinct c m h
change-Distinct (leaves c) m h = unfold change in disconnect-Distinct c m h

pub changes-Distinct :
    (cs : List Change) (m : ConnectionManager)
    → Distinct m.connections
    → Distinct (changes cs m).connections
unfolding changes
changes-Distinct [] m h = h
changes-Distinct (c ∷ cs) m h = changes-Distinct cs (change c m) (change-Distinct c m h)

pub broadcast-Distinct :
    (network : Network) (meanwhile : List Change) (message : Message) (m : ConnectionManager)
    → Distinct m.connections
    → Distinct (broadcast network meanwhile message m).connections
unfolding broadcast drop_dead
broadcast-Distinct network meanwhile message m h = elim (Bool-cases (is_empty m.connections)) [
  | inl e ↦ rw e h
  | inr e ↦ rw e (
      disconnect_all-Distinct (dead network message m.connections) _
        (changes-Distinct meanwhile m h))
]
