-- ===== src/Trains/Location/Remaining.antt =====
-- What `RouteResolver.locate` returns (src/metropulse/application/route_resolver.py).
use metropulse.Prelude.{
  Option, none, some, List, [], ◌∷◌, ◌++◌, ◌≡◌, refl, sym, ap, ◌⊎◌, inl, inr, Any, Any-append_right,
  Comparable, ◌==◌, Bool-cases, get_last?, not_both,
}
use metropulse.Planner.Number.{AtMost}
use metropulse.Planner.Graph.{haversine_m}
use metropulse.Trains.Geometry.{Geo, Point, ShapeGeometry, shape_geometry}
use metropulse.Trains.Geometry.Projected.{project-decided, total-AtMost}
use metropulse.Trains.Resolver.{StopOnTrip, TrainLocation, ref?, first_of}
use metropulse.Trains.Location.{
  nearest, locate_by_distance, from_stop, remaining, after_first, locate_nearest, locate_on_shape,
  locate_on,
}
use metropulse.Trains.Location.Located.{locate_by_distance-Splits}

module _ (geo : Geo) where
  open geo use {number, maths}
  open number use {Num, zero}

  abbrev IsIn : List (StopOnTrip Num) → Option (StopOnTrip Num) → Type 0
  IsIn stops none = Unit
  IsIn stops (some stop) = Any (λ s. s ≡ stop) stops

  first_of-IsIn : (stops : List (StopOnTrip Num)) → IsIn stops (first_of stops)
  first_of-IsIn [] = tt
  first_of-IsIn (stop ∷ stops) = inl refl

  after-IsIn :
      (before after : List (StopOnTrip Num)) (next : Option (StopOnTrip Num))
      → IsIn after next
      → IsIn (before ++ after) next
  after-IsIn before after none h = tt
  after-IsIn before after (some stop) h = Any-append_right (λ s. s ≡ stop) before after h

  -- the next stop is one of the stops
  next-IsIn :
      (distance radius : Num) (stops : List (StopOnTrip Num))
      → IsIn stops (locate_by_distance geo stops distance radius).1.0
  next-IsIn distance radius stops = elim (locate_by_distance-Splits geo distance radius stops) [
    | inl (stop, next, (place, (before, after, (split, (far, (near, following)))))) ↦
        rw (place, split, following)
          (after-IsIn before (stop ∷ after) _
            (deeper stop after (first_of after) (first_of-IsIn after)))
    | inr
          (
            found,
            (place, (far, (before, after, (split, (behind, (current, (following, ahead))))))),
          ) ↦
        rw (place, split, following) (after-IsIn before after _ (first_of-IsIn after))
  ]
    where
      deeper :
          (stop : StopOnTrip Num) (after : List (StopOnTrip Num)) (next : Option (StopOnTrip Num))
          → IsIn after next
          → IsIn (stop ∷ after) next
      deeper stop after none h = tt
      deeper stop after (some s) h = inr h

  module _ ⦃same : Comparable (StopOnTrip Num)⦄ where
    from_stop-first_of :
        (stop : StopOnTrip Num) (stops : List (StopOnTrip Num))
        → Any (λ s. s ≡ stop) stops
        → (rest : List (StopOnTrip Num)) × (from_stop geo stop stops ≡ stop ∷ rest)
    unfolding from_stop
    from_stop-first_of stop [] h = elim h [ ]
    from_stop-first_of stop (s ∷ stops) h = elim (Bool-cases (s == stop)) [
      | inl e ↦ (stops, rw e (ap (λ (x : StopOnTrip Num). x ∷ stops) ((same.equal_iff s stop).0 e)))
      | inr e ↦ elim h [
        | inl p ↦ not_both ((same.equal_iff s stop).1 p) e
        | inr k ↦ rw e (from_stop-first_of stop stops k)
      ]
    ]

    remaining-first_of :
        (stops : List (StopOnTrip Num)) (next : Option (StopOnTrip Num))
        → IsIn stops next
        → first_of (remaining geo stops next) ≡ ref? next
    unfolding remaining
    remaining-first_of stops none h = refl
    remaining-first_of stops (some stop) h =
        let (rest, e) = from_stop-first_of stop stops h in rw e refl

    after_first-IsIn :
        (stop : StopOnTrip Num) (stops : List (StopOnTrip Num))
        → IsIn stops (after_first geo (from_stop geo stop stops))
    unfolding from_stop
    after_first-IsIn stop [] = tt
    after_first-IsIn stop (s ∷ stops) = elim (Bool-cases (s == stop)) [
      | inl e ↦ rw (e, IsIn) (deeper s stops (first_of stops) (first_of-IsIn stops))
      | inr e ↦ rw (e, IsIn) (deeper s stops _ (after_first-IsIn stop stops))
    ]
      where
        deeper :
            (s : StopOnTrip Num) (after : List (StopOnTrip Num)) (next : Option (StopOnTrip Num))
            → IsIn after next
            → IsIn (s ∷ after) next
        deeper s after none h = tt
        deeper s after (some t) h = inr h

    -- The remaining stations begin with the next one, and the destination is the last stop.
    abbrev pub Agrees : List (StopOnTrip Num) → TrainLocation Num → Type 0
    Agrees stops location =
        (first_of location.remaining_stations ≡ location.next_station)
        × (location.destination ≡ ref? (get_last? stops))

    module _
        (nonnegative : (a b c d : Num)
          → AtMost number zero (haversine_m number maths a b c d)) where
      -- Where no distance on the sphere is negative, a trip without a shape, or with the shape that its vertices make, gives a train a location; the location's remaining stations begin with its next one, and its destination is the last stop of the trip.
      pub locate_on-Agrees :
          (radius lat lon : Num) (geometry : Option (ShapeGeometry Num))
          (vertices : List (Point Num)) (stops : List (StopOnTrip Num))
          → (geometry ≡ none) ⊎ (geometry ≡ shape_geometry geo vertices)
          → (location : TrainLocation Num) × ((locate_on geo radius lat lon geometry stops
                ≡ some location)
              × Agrees stops location)
      unfolding locate_on locate_nearest locate_on_shape
      locate_on-Agrees radius lat lon geometry vertices [] h = (_, (refl, (refl, refl)))
      locate_on-Agrees radius lat lon none vertices (stop ∷ stops) h = (
        _,
        (
          refl,
          (
            remaining-first_of (stop ∷ stops) _
                (after_first-IsIn (nearest geo lat lon stop stops) (stop ∷ stops)),
            refl,
          ),
        ),
      )
      locate_on-Agrees radius lat lon (some shape) vertices (stop ∷ stops) h =
          let built : shape_geometry geo vertices ≡ some shape = elim h [
            | inl e ↦ absurd (cc)
            | inr e ↦ sym e
          ] in
          let (found, (projected, on)) =
            (project-decided geo nonnegative lat lon zero vertices shape built).1
              (total-AtMost geo nonnegative vertices shape built) in
          rw (projected, locate_on_shape)
            (
              _,
              (
                refl,
                (
                  remaining-first_of (stop ∷ stops) _
                      (next-IsIn found.distance_along_m radius (stop ∷ stops)),
                  refl,
                ),
              ),
            )
