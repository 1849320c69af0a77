-- ===== src/Trains/Geometry.antt =====
-- src/metropulse/domain/geometry.py: `ShapeGeometry` and `_project_to_segment`. `none` is the
-- AssertionError of `project`, and the ValueError of a shape with fewer than two points.
pub mod Projected
use metropulse.Prelude.{ℕ, Option, none, some, List, [], ◌∷◌, ◌+◌, if◌then◌else◌}
use metropulse.Planner.Number.{Number}
use metropulse.Planner.Graph.{Maths, haversine_m}

pub record ShapeProjection (Num : Type 0) : Type 0 where
  pub distance_along_m : Num
  pub offset_m : Num
  pub segment_index : ℕ

-- a vertex, its latitude first
abbrev pub Point : Type 0 → Type 0
Point Num = Num × Num

-- The cumulative distances are those of the vertices after the first one, whose distance is zero.
pub record ShapeGeometry (Num : Type 0) : Type 0 where
  pub start : Point Num
  pub points : List (Point Num)
  pub cumulative : List Num

-- `math.hypot` and the literals of the module
pub record Plane (Num : Type 0) : Type 0 where
  pub hypot : Num → Num → Num
  pub m_per_deg_lat : Num
  pub one : Num
  pub least_length : Num
  pub least_square : Num

-- The numbers, and what they are computed with.
pub record Geo : Type 1 where
  pub number : Number
  pub maths : Maths number.Num
  pub plane : Plane number.Num

module _ (geo : Geo) where
  open geo use {number, maths, plane}
  open number use {Num, zero, plus, times, lt}

  -- min(a, b) and max(a, b)
  abbrev pub min_of : Num → Num → Num
  min_of a b = if lt b a then b else a

  abbrev pub max_of : Num → Num → Num
  max_of a b = if lt a b then b else a

  unfoldable pub cumulative_after : Num → Point Num → List (Point Num) → List Num
  cumulative_after along p [] = []
  cumulative_after along p (q ∷ points) =
      let next = plus along (haversine_m number maths p.0 p.1 q.0 q.1) in
      next ∷ cumulative_after next q points

  unfoldable pub shape_geometry : List (Point Num) → Option (ShapeGeometry Num)
  shape_geometry (p ∷ q ∷ points) =
      some (record {
        start = p;
        points = q ∷ points;
        cumulative = cumulative_after zero p (q ∷ points);
      })
  shape_geometry _ = none

  -- cumulative[-1]
  unfoldable pub last_of : Num → List Num → Num
  last_of x [] = x
  last_of x (y ∷ ys) = last_of y ys

  unfoldable pub total_length_m : ShapeGeometry Num → Num
  total_length_m shape = last_of zero shape.cumulative

  unfoldable pub project_to_segment : Num → Num → Point Num → Point Num → Num × Num
  project_to_segment lat lon p q =
      let k_lon =
        times plane.m_per_deg_lat
          (maths.cos (maths.radians (maths.divide (plus p.0 q.0) maths.two))) in
      let px = times (maths.minus lon p.1) k_lon in
      let py = times (maths.minus lat p.0) plane.m_per_deg_lat in
      let sx = times (maths.minus q.1 p.1) k_lon in
      let sy = times (maths.minus q.0 p.0) plane.m_per_deg_lat in
      let square = plus (times sx sx) (times sy sy) in
      if lt plane.least_square square
      then (let t =
            min_of (max_of (maths.divide (plus (times px sx) (times py sy)) square) zero)
              plane.one in
          (
            times t (maths.sqrt square),
            plane.hypot (maths.minus px (times t sx)) (maths.minus py (times t sy)),
          ))
      else (zero, plane.hypot px py)

  -- One segment, from `along_start` to `along_end`: the clamp honours the floor.
  unfoldable pub on_segment :
      Num → Num → Num → ℕ → Point Num → Point Num → Num → Num → ShapeProjection Num
  on_segment lat lon floor index p q along_start along_end =
      let found = project_to_segment lat lon p q in
      let distance = plus along_start found.0 in
      if lt distance floor
      then (let t =
            min_of
              (max_of
                (maths.divide (maths.minus floor along_start)
                  (max_of (maths.minus along_end along_start) plane.least_length))
                zero)
              plane.one in
          record {
            distance_along_m = floor;
            offset_m =
                haversine_m number maths lat lon (plus p.0 (times (maths.minus q.0 p.0) t))
                  (plus p.1 (times (maths.minus q.1 p.1) t));
            segment_index = index;
          })
      else record { distance_along_m = distance; offset_m = found.1; segment_index = index }

  -- `if best is None or offset < best.offset_m`
  unfoldable pub better : ShapeProjection Num → Option (ShapeProjection Num) → ShapeProjection Num
  better new none = new
  better new (some best) = if lt new.offset_m best.offset_m then new else best

  unfoldable pub scan_segments :
      Num
      → Num
      → Num
      → ℕ
      → Point Num
      → Num
      → List (Point Num)
      → List Num
      → Option (ShapeProjection Num)
      → Option (ShapeProjection Num)
  scan_segments lat lon floor index p along (q ∷ points) (next ∷ cumulative) best =
      scan_segments lat lon floor (index + 1) q next points cumulative (
        if lt next floor
        then best
        else some (better (on_segment lat lon floor index p q along next) best))
  scan_segments lat lon floor index p along _ _ best = best

  unfoldable pub project : ShapeGeometry Num → Num → Num → Num → Option (ShapeProjection Num)
  project shape lat lon floor =
      scan_segments lat lon floor 0 shape.start zero shape.points shape.cumulative none
