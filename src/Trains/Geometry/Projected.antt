-- ===== src/Trains/Geometry/Projected.antt =====
-- When `ShapeGeometry.project` returns, and where it projects to.
use metropulse.Prelude.{
  ℕ, ◌+◌, ◌<◌, ◌≤◌, Bool, true, false, Option, none, some, List, [], ◌∷◌, ◌≡◌, refl, subst, arith,
  length, All, Bool-cases, inl, inr, not_both, if◌then◌else◌,
}
use mathlib.Core.Option.{some-injective}
use metropulse.Planner.Number.{AtMost}
use metropulse.Planner.Graph.{haversine_m}
use metropulse.Trains.Geometry.{
  Geo, ShapeProjection, Point, ShapeGeometry, cumulative_after, shape_geometry, last_of,
  total_length_m, on_segment, project_to_segment, better, scan_segments, project,
}

module _ (geo : Geo) where
  open geo use {number, maths}
  open number use {Num, zero, plus, lt, lt_irrefl, at_most_trans, plus_grows}

  lt-of_at_most_lt : (a b c : Num) → AtMost number a b → lt b c ≡ true → lt a c ≡ true
  lt-of_at_most_lt a b c h k = elim (Bool-cases (lt a c)) [
    | inl e ↦ e
    | inr e ↦ not_both k (at_most_trans c a b e h)
  ]

  module _
      (nonnegative : (a b c d : Num) → AtMost number zero (haversine_m number maths a b c d)) where
    last-cumulative :
        (along : Num) (p : Point Num) (points : List (Point Num))
        → AtMost number along (last_of geo along (cumulative_after geo along p points))
    unfolding last_of cumulative_after
    last-cumulative along p [] = lt_irrefl along
    last-cumulative along p (q ∷ points) =
        at_most_trans along (plus along (haversine_m number maths p.0 p.1 q.0 q.1)) _
          (plus_grows along _ (nonnegative p.0 p.1 q.0 q.1))
          (last-cumulative (plus along (haversine_m number maths p.0 p.1 q.0 q.1)) q points)

    -- no segment reaches the floor
    cumulative-All :
        (along floor : Num) (p : Point Num) (points : List (Point Num))
        → lt (last_of geo along (cumulative_after geo along p points)) floor ≡ true
        → All (λ c. lt c floor ≡ true) (cumulative_after geo along p points)
    unfolding last_of cumulative_after
    cumulative-All along floor p [] h = tt
    cumulative-All along floor p (q ∷ points) h = (
      lt-of_at_most_lt _ _ floor
          (last-cumulative (plus along (haversine_m number maths p.0 p.1 q.0 q.1)) q points) h,
      cumulative-All (plus along (haversine_m number maths p.0 p.1 q.0 q.1)) floor q points h,
    )

    module _ (lat lon floor : Num) where
      scan-none :
          (index : ℕ) (p : Point Num) (along : Num) (points : List (Point Num))
          (cumulative : List Num)
          → All (λ c. lt c floor ≡ true) cumulative
          → scan_segments geo lat lon floor index p along points cumulative none ≡ none
      unfolding scan_segments
      scan-none index p along [] cumulative h = refl
      scan-none index p along (q ∷ points) [] h = refl
      scan-none index p along (q ∷ points) (next ∷ cumulative) h =
          rw h.0 (scan-none (index + 1) q next points cumulative h.1)

      -- at or beyond the floor, on a segment of the shape
      abbrev pub IsOn : ℕ → ShapeProjection Num → Type 0
      IsOn segments r = AtMost number floor r.distance_along_m × (r.segment_index < segments)

      on_segment-IsOn :
          (index segments : ℕ) (p q : Point Num) (along next : Num)
          → index < segments
          → IsOn segments (on_segment geo lat lon floor index p q along next)
      unfolding on_segment
      on_segment-IsOn index segments p q along next h =
          elim (Bool-cases (lt (plus along (project_to_segment geo lat lon p q).0) floor)) [
            | inl e ↦ rw e (lt_irrefl floor, h)
            | inr e ↦ rw e (e, h)
          ]

      abbrev IsOn? : ℕ → Option (ShapeProjection Num) → Type 0
      IsOn? segments none = Unit
      IsOn? segments (some r) = IsOn segments r

      better-IsOn :
          (segments : ℕ) (r : ShapeProjection Num) (best : Option (ShapeProjection Num))
          → IsOn segments r
          → IsOn? segments best
          → IsOn segments (better geo r best)
      unfolding better
      better-IsOn segments r none h k = h
      better-IsOn segments r (some b) h k = elim (Bool-cases (lt r.offset_m b.offset_m)) [
        | inl e ↦ rw e h
        | inr e ↦ rw e k
      ]

      scan-IsOn :
          (index segments : ℕ) (p : Point Num) (along : Num) (points : List (Point Num))
          (cumulative : List Num) (best : Option (ShapeProjection Num))
          → index + length points ≤ segments
          → IsOn? segments best
          → IsOn? segments (scan_segments geo lat lon floor index p along points cumulative best)
      unfolding scan_segments
      scan-IsOn index segments p along [] cumulative best h k = k
      scan-IsOn index segments p along (q ∷ points) [] best h k = k
      scan-IsOn index segments p along (q ∷ points) (next ∷ cumulative) best h k =
          scan-IsOn (index + 1) segments q next points cumulative _ (omega (arith, h))
            (kept (lt next floor))
        where
          kept :
              (b : Bool)
              → IsOn? segments (
                  if b
                  then best
                  else some (better geo (on_segment geo lat lon floor index p q along next) best))
          kept true = k
          kept false =
              better-IsOn segments _ best
                (on_segment-IsOn index segments p q along next (omega (arith, h))) k

      scan-some :
          (index : ℕ) (p : Point Num) (along : Num) (q : Point Num) (points : List (Point Num))
          (best : Option (ShapeProjection Num))
          → lt (last_of geo along (cumulative_after geo along p (q ∷ points))) floor ≡ false
          → (r : ShapeProjection Num) × (scan_segments geo lat lon floor index p along
                (q ∷ points)
                (cumulative_after geo along p (q ∷ points))
                best
              ≡ some r)
      unfolding scan_segments last_of cumulative_after
      scan-some index p along q [] best h = (
        better geo
            (on_segment geo lat lon floor index p q along
              (plus along (haversine_m number maths p.0 p.1 q.0 q.1)))
            best,
        rw h refl,
      )
      scan-some index p along q (s ∷ points) best h =
          scan-some (index + 1) q (plus along (haversine_m number maths p.0 p.1 q.0 q.1)) s points _
            h

      -- The end of the shape decides. Given that no distance between two points is negative: on every
      -- shape that `ShapeGeometry` builds, a point is projected if the floor is at most the length of
      -- the shape, and then to a place at or beyond the floor on one of its segments; and the
      -- projection fails (an AssertionError) if the floor is more than that.
      pub project-decided :
          (vertices : List (Point Num)) (shape : ShapeGeometry Num)
          → shape_geometry geo vertices ≡ some shape
          → ((lt (total_length_m geo shape) floor ≡ true) → project geo shape lat lon floor ≡ none)
            × ((lt (total_length_m geo shape) floor ≡ false)
                → (r : ShapeProjection Num) × ((project geo shape lat lon floor ≡ some r)
                    × IsOn (length shape.points) r))
      unfolding shape_geometry total_length_m project
      project-decided [] shape h = cc
      project-decided (p ∷ []) shape h = cc
      project-decided (p ∷ q ∷ points) shape h =
          subst
            (λ (s : ShapeGeometry Num).
              ((lt (total_length_m geo s) floor ≡ true) → project geo s lat lon floor ≡ none)
              × ((lt (total_length_m geo s) floor ≡ false)
                  → (r : ShapeProjection Num) × ((project geo s lat lon floor ≡ some r)
                      × IsOn (length s.points) r)))
            (some-injective _ _ h)
            (
              λ beyond.
                  scan-none 0 p zero (q ∷ points) _
                    (cumulative-All zero floor p (q ∷ points) beyond),
              λ within.
                  let (r, e) = scan-some 0 p zero q points none within in
                  (
                    r,
                    (
                      e,
                      subst (λ (o : Option (ShapeProjection Num)). IsOn? (length (q ∷ points)) o) e
                          (scan-IsOn 0 (length (q ∷ points)) p zero (q ∷ points) _ none
                            (omega arith) tt),
                    ),
                  ),
            )

    -- A shape is not shorter than nothing.
    pub total-AtMost :
        (vertices : List (Point Num)) (shape : ShapeGeometry Num)
        → shape_geometry geo vertices ≡ some shape
        → AtMost number zero (total_length_m geo shape)
    unfolding shape_geometry total_length_m
    total-AtMost [] shape h = cc
    total-AtMost (p ∷ []) shape h = cc
    total-AtMost (p ∷ q ∷ points) shape h =
        subst (λ (s : ShapeGeometry Num). AtMost number zero (last_of geo zero s.cumulative))
          (some-injective _ _ h) (last-cumulative zero p (q ∷ points))
