-- ===== src/Realtime/Store.antt =====
-- The store of the latest positions and the poll that keeps it: `RedisVehicleStore` of
-- src/metropulse/infrastructure/redis/vehicle_store.py, `poll_once` and `poll_safe` of
-- src/metropulse/application/realtime_engine.py. A hash of Redis is a dictionary.
pub mod Applied
mod Parts
pub mod Polls
pub mod Examples
use metropulse.Prelude.{
  ℕ, ◌+◌, String, Bool, true, false, Option, none, some, List, [], ◌∷◌, ◌++◌, map, if◌then◌else◌,
  ◌&&◌, ◌==◌, Comparable, comparable_string,
}
use metropulse.Prelude.Dict.{Dict, insert, erase, lookup}
use metropulse.Realtime.Snapshot.{SnapshotDiff, diff_snapshots, is_empty}

-- A message that `_publish_diff` appends to the stream.
pub record Update (Train : Type 0) : Type 0 where
  pub seq : ℕ
  pub added : List (Option Train)
  pub moved : List (Option Train)
  pub removed : List String
  pub stale : List String

pub record VehicleStore (Position Train : Type 0) : Type 0 where
  pub vehicles : Dict String Position
  pub trains : Dict String Train
  pub sequence : ℕ
  pub updates : List (Update Train)

-- `hset` with a mapping, and `hdel`
unfoldable pub hset : {V : Type 0} → Dict String V → Dict String V → Dict String V
hset [] d = d
hset ((k, v) ∷ mapping) d = hset mapping (insert k v d)

unfoldable pub hdel : {V : Type 0} → List String → Dict String V → Dict String V
hdel [] d = d
hdel (k ∷ ks) d = hdel ks (erase k d)

-- `{p.vehicle_id: p for p in positions}`
unfoldable pub by_id : {V : Type 0} → List (String × V) → Dict String V → Dict String V
by_id [] d = d
by_id ((vehicle_id, position) ∷ positions) d = by_id positions (insert vehicle_id position d)

unfoldable pub assembled : {V Train : Type 0} → (V → Train) → Dict String V → Dict String Train
assembled assemble [] = []
assembled assemble ((vehicle_id, position) ∷ rest) =
    (vehicle_id, assemble position) ∷ assembled assemble rest

module _ {Position Train : Type 0} where
  unfoldable pub apply :
      Dict String Position → List String → VehicleStore Position Train → VehicleStore Position Train
  apply upserts removed store =
      if is_empty upserts && is_empty removed then store else record store {
        vehicles = hdel removed (hset upserts store.vehicles);
        trains = hdel removed store.trains;
      }

  unfoldable pub cache_train_states :
      Dict String Train → List String → VehicleStore Position Train → VehicleStore Position Train
  cache_train_states states removed store =
      if is_empty states && is_empty removed
      then store
      else record store { trains = hdel removed (hset states store.trains) }

  unfoldable pub next_sequence : VehicleStore Position Train → VehicleStore Position Train
  next_sequence store = record store { sequence = store.sequence + 1 }

  unfoldable pub publish : Update Train → VehicleStore Position Train → VehicleStore Position Train
  publish update store = record store { updates = store.updates ++ update ∷ [] }

  -- `assemble` is the train service at the time of the poll
  module _ ⦃positions : Comparable Position⦄ (stale : Position → Bool)
      (assemble : Position → Train) where
    unfoldable pub update_of : ℕ → Dict String Train → SnapshotDiff Position → Update Train
    update_of sequence states diff = record {
      seq = sequence;
      added = map (λ v. lookup v states) diff.added;
      moved = map (λ v. lookup v states) diff.moved;
      removed = diff.removed;
      stale = diff.stale;
    }

    unfoldable pub publish_diff :
        SnapshotDiff Position → VehicleStore Position Train → VehicleStore Position Train
    publish_diff diff store =
        let states = assembled assemble diff.changed in
        publish (update_of store.sequence states diff)
          (cache_train_states states diff.removed store)

    -- the part of `poll_once` that changes the store, from the positions that were fetched
    unfoldable pub poll_once :
        List (String × Position) → VehicleStore Position Train → VehicleStore Position Train
    poll_once fetched store =
        let diff = diff_snapshots stale store.vehicles (by_id fetched []) in
        publish_diff diff (next_sequence (apply diff.changed diff.removed store))

-- What a poll meets: positions, with what is stale and what the train service makes of a position
-- at that time, or an error of MetroPulse with its text, or another exception.
pub data Fetch (Position Train : Type 0) : Type 0 where
  fetched : (Position → Bool) → (Position → Train) → List (String × Position) → Fetch Position Train
  metropulse_error : String → Fetch Position Train
  unexpected_error : Fetch Position Train

pub record EngineStats : Type 0 where
  pub polls : ℕ
  pub failures : ℕ
  pub consecutive_failures : ℕ
  pub last_error : Option String

pub record Engine (Position Train : Type 0) : Type 0 where
  pub stats : EngineStats
  pub store : VehicleStore Position Train

module _ {Position Train : Type 0} where
  unfoldable pub counted : EngineStats → Fetch Position Train → EngineStats
  counted stats (fetched _ _ _) = record stats { polls = stats.polls + 1; consecutive_failures = 0 }
  counted stats (metropulse_error text) = record stats {
    polls = stats.polls + 1;
    failures = stats.failures + 1;
    consecutive_failures = stats.consecutive_failures + 1;
    last_error = some text;
  }
  counted stats unexpected_error = record stats {
    polls = stats.polls + 1;
    failures = stats.failures + 1;
    consecutive_failures = stats.consecutive_failures + 1;
  }

  module _ ⦃positions : Comparable Position⦄ where
    unfoldable pub stored :
        VehicleStore Position Train → Fetch Position Train → VehicleStore Position Train
    stored store (fetched stale assemble positions) = poll_once stale assemble positions store
    stored store _ = store

    -- a failure is one of the fetch: Redis and the database answer
    unfoldable pub poll_safe : Engine Position Train → Fetch Position Train → Engine Position Train
    poll_safe engine fetch = record {
      stats = counted engine.stats fetch;
      store = stored engine.store fetch;
    }

    unfoldable pub polls :
        Engine Position Train → List (Fetch Position Train) → Engine Position Train
    polls engine [] = engine
    polls engine (fetch ∷ fetches) = polls (poll_safe engine fetch) fetches
