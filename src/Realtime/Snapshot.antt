-- ===== src/Realtime/Snapshot.antt =====
-- What changed between two snapshots of the feed: `diff_snapshots` of
-- src/metropulse/application/snapshot.py.
pub mod Sorted
pub mod Changes
use metropulse.Prelude.{
  ℕ, String, Bool, true, false, not, ◌&&◌, ◌||◌, Option, none, some, List, [], ◌∷◌, if◌then◌else◌,
  ◌==◌, Comparable, comparable_string, filter, length, contains,
}
use metropulse.Prelude.Dict.{Dict, keys, lookup, has_key}
use Sorted.{sorted}

pub record SnapshotDiff (Position : Type 0) : Type 0 where
  pub total : ℕ
  pub added : List String
  pub moved : List String
  pub removed : List String
  pub stale : List String
  pub changed : Dict String Position

-- `bool(self.changed or self.removed)`
abbrev pub is_empty {ℓ} : {A : Type ℓ} → List A → Bool
is_empty [] = true
is_empty (x ∷ xs) = false

unfoldable pub has_changes : {Position : Type 0} → SnapshotDiff Position → Bool
has_changes diff = not (is_empty diff.changed && is_empty diff.removed)

-- A position is compared by its fields; `stale` is `is_stale` at the time of the poll.
module _ {Position : Type 0} ⦃positions : Comparable Position⦄ (stale : Position → Bool) where
  -- `previous.get(vehicle_id) != position`
  abbrev pub differs : Option Position → Position → Bool
  differs none position = true
  differs (some old) position = not (old == position)

  unfoldable pub changes : Dict String Position → Dict String Position → Dict String Position
  changes previous [] = []
  changes previous ((vehicle_id, position) ∷ rest) =
      if differs (lookup vehicle_id previous) position
      then (vehicle_id, position) ∷ changes previous rest
      else changes previous rest

  unfoldable pub stale_ids : Dict String Position → List String
  stale_ids [] = []
  stale_ids ((vehicle_id, position) ∷ rest) =
      if stale position then vehicle_id ∷ stale_ids rest else stale_ids rest

  unfoldable pub diff_snapshots :
      Dict String Position → Dict String Position → SnapshotDiff Position
  diff_snapshots previous current =
      let changed = changes previous current in
      record {
        total = length current;
        added = sorted (filter (λ v. not (has_key v previous)) (keys changed));
        moved = sorted (filter (λ v. has_key v previous) (keys changed));
        removed = sorted (filter (λ v. not (has_key v current)) (keys previous));
        stale = sorted (stale_ids current);
        changed = changed;
      }
