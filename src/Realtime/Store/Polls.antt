-- ===== src/Realtime/Store/Polls.antt =====
-- What holds after any number of polls (src/metropulse/application/realtime_engine.py).
use metropulse.Prelude.{
  ℕ, zero, suc, String, ◌≡◌, Bool, List, [], ◌∷◌, ◌++◌, map, Comparable, comparable_string,
  contains,
}
use metropulse.Prelude.Dict.{Dict, lookup}
use metropulse.Realtime.Snapshot.{SnapshotDiff, diff_snapshots}
use metropulse.Realtime.Store.{
  Fetch, fetched, metropulse_error, unexpected_error, VehicleStore, apply, by_id, next_sequence,
  poll_once,
}
use metropulse.Realtime.Store.Parts.{is_some}

-- 1, 2, ..., n
abbrev pub upto : ℕ → List ℕ
upto zero = []
upto (suc n) = upto n ++ suc n ∷ []

-- what the last poll fetched that did not fail
unfoldable pub last_fetched :
    {Position Train : Type 0}
    → List (String × Position)
    → List (Fetch Position Train)
    → List (String × Position)
last_fetched latest [] = latest
last_fetched latest (fetched stale assemble positions ∷ fetches) = last_fetched positions fetches
last_fetched latest (metropulse_error text ∷ fetches) = last_fetched latest fetches
last_fetched latest (unexpected_error ∷ fetches) = last_fetched latest fetches

module _ {Position Train : Type 0} where
  -- The store holds the positions of `latest` and a train state for each of them, and its messages
  -- are numbered from one without a gap.
  pub record Holds (latest : List (String × Position)) (store : VehicleStore Position Train)
      : Type 0 where
    pub vehicles : (v : String) → lookup v store.vehicles ≡ lookup v (by_id latest [])
    pub trains : (v : String) → is_some (lookup v store.trains) ≡ is_some (lookup v store.vehicles)
    pub numbered : map (λ u. u.seq) store.updates ≡ upto store.sequence

  module _ ⦃positions : Comparable Position⦄ (stale : Position → Bool) (f : Position → Train)
      (fresh : List (String × Position)) (store : VehicleStore Position Train) where
    abbrev current : Dict String Position
    current = by_id fresh []

    abbrev diff : SnapshotDiff Position
    diff = diff_snapshots stale store.vehicles current

    abbrev after : VehicleStore Position Train
    after = poll_once stale f fresh store

    abbrev applied : VehicleStore Position Train
    applied = next_sequence (apply diff.changed diff.removed store)

    gone : String → Bool
    gone v = contains v diff.removed
