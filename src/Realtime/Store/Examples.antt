-- ===== src/Realtime/Store/Examples.antt =====
-- Polls of a feed with three vehicles, whose positions are numbers
-- (src/metropulse/application/realtime_engine.py).
use metropulse.Prelude.{
  String, ℕ, ◌≡◌, refl, Bool, false, none, List, [], ◌∷◌, comparable_nat, comparable_string,
}
use metropulse.Realtime.Snapshot.{changes, diff_snapshots, stale_ids}
use metropulse.Realtime.Snapshot.Sorted.{place, sorted}
use metropulse.Realtime.Store.{
  Engine, Fetch, fetched, metropulse_error, apply, assembled, by_id, cache_train_states, counted,
  hdel, hset, next_sequence, poll_once, poll_safe, polls, publish, publish_diff, stored, update_of,
}
use metropulse.Prelude.Dict.{Dict, lookup}
use metropulse.Realtime.Store.Applied.{diff_applied}

abbrev fresh : ℕ → Bool
fresh n = false

abbrev as_is : ℕ → ℕ
as_is n = n

abbrev engine : Engine ℕ ℕ
engine = record {
  stats = record { polls = 0; failures = 0; consecutive_failures = 0; last_error = none };
  store = record { vehicles = []; trains = []; sequence = 0; updates = [] };
}

abbrev feed : List (Fetch ℕ ℕ)
feed =
    fetched fresh as_is (("v2", 5) ∷ ("v1", 7) ∷ [])
    ∷ metropulse_error "timeout"
    ∷ fetched fresh as_is (("v1", 8) ∷ ("v3", 1) ∷ [])
    ∷ []

vehicles_after : (polls engine feed).store.vehicles ≡ ("v1", 8) ∷ ("v3", 1) ∷ []
unfolding polls poll_safe stored counted poll_once publish_diff publish next_sequence apply
    cache_train_states assembled update_of by_id hset hdel diff_snapshots changes stale_ids sorted
    place
vehicles_after = refl

failures_after : (polls engine feed).stats.failures ≡ 1
unfolding polls poll_safe stored counted
failures_after = refl

abbrev before_move : Dict String ℕ
before_move = ("v1", 7) ∷ ("v2", 5) ∷ []

abbrev after_move : Dict String ℕ
after_move = ("v1", 8) ∷ []

diff_applied_example :
    lookup "v1" (
      hdel
        (diff_snapshots fresh before_move after_move).removed
        (hset (diff_snapshots fresh before_move after_move).changed before_move))
    ≡ lookup "v1" after_move
diff_applied_example = diff_applied fresh before_move after_move "v1" (refl, tt)
