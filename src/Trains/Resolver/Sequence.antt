-- ===== src/Trains/Resolver/Sequence.antt =====
-- The distances of the stops along a trip (`_build_stop_sequence`).
use metropulse.Prelude.{
  String, true, false, Option, none, some, List, [], ◌∷◌, ◌≡◌, refl, ap, ◌⊎◌, inl, inr, map, Any,
  Bool-cases,
}
use metropulse.Planner.Number.{AtMost}
use metropulse.Planner.Graph.{haversine_m}
use metropulse.Trains.Geometry.{
  Geo, ShapeProjection, Point, ShapeGeometry, shape_geometry, total_length_m, project,
}
use metropulse.Trains.Geometry.Projected.{project-decided, total-AtMost}
use metropulse.Trains.Resolver.{
  StopOnTrip, Pair, stop_on_trip, distance_of, build_stops, build_stop_sequence,
}

module _ (geo : Geo) where
  open geo use {number, maths}
  open number use {Num, zero, plus, lt, lt_irrefl, plus_grows}

  -- no stop is before the one before it, or before the floor
  abbrev pub Ascending : Num → List (StopOnTrip Num) → Type 0
  Ascending floor [] = Unit
  Ascending floor (stop ∷ stops) =
      AtMost number floor stop.distance_along_shape_m × Ascending stop.distance_along_shape_m stops

  -- A stop for each pair, in order and ascending.
  abbrev pub IsSequence : Num → List (Pair Num) → List (StopOnTrip Num) → Type 0
  IsSequence floor pairs stops =
      (map (λ (s : StopOnTrip Num). s.stop_id) stops ≡ map (λ (p : Pair Num). p.stop_id) pairs)
      × Ascending floor stops

  -- some stop is projected beyond the end of the shape
  abbrev pub IsBeyond : ShapeGeometry Num → Pair Num → Type 0
  IsBeyond shape pair =
      (floor : Num) × (r : ShapeProjection Num) × ((project geo shape pair.stop_lat pair.stop_lon
            floor
          ≡ some r)
        × (lt (total_length_m geo shape) r.distance_along_m ≡ true))

  module _
      (nonnegative : (a b c d : Num) → AtMost number zero (haversine_m number maths a b c d)) where
    one_more :
        (geometry : Option (ShapeGeometry Num)) (floor : Num) (previous : Option (Point Num))
        (pair : Pair Num) (pairs : List (Pair Num)) (distance : Num)
        → distance_of geo geometry floor previous pair ≡ some distance
        → AtMost number floor distance
        → (stops : List (StopOnTrip Num)) × ((build_stops geo geometry distance
                (some (pair.stop_lat, pair.stop_lon))
                pairs
              ≡ some stops)
            × IsSequence distance pairs stops)
        → (stops : List (StopOnTrip Num)) × ((build_stops geo geometry floor previous (pair ∷ pairs)
              ≡ some stops)
            × IsSequence floor (pair ∷ pairs) stops)
    unfolding build_stops stop_on_trip
    one_more geometry floor previous pair pairs distance found grows
          (stops, (made, (same, ascending))) =
        (
          stop_on_trip geo pair distance ∷ stops,
          (
            rw (found, made) refl,
            (ap (λ (ids : List String). pair.stop_id ∷ ids) same, (grows, ascending)),
          ),
        )

    without_shape :
        (floor : Num) (previous : Point Num) (pairs : List (Pair Num))
        → (stops : List (StopOnTrip Num)) × ((build_stops geo none floor (some previous) pairs
              ≡ some stops)
            × IsSequence floor pairs stops)
    without_shape floor previous [] = ([], (unfold build_stops in refl, (refl, tt)))
    without_shape floor previous (pair ∷ pairs) =
        let step = haversine_m number maths previous.0 previous.1 pair.stop_lat pair.stop_lon in
        one_more none floor (some previous) pair pairs (plus floor step)
          (unfold distance_of in refl)
          (plus_grows floor step (nonnegative previous.0 previous.1 pair.stop_lat pair.stop_lon))
          (without_shape (plus floor step) (pair.stop_lat, pair.stop_lon) pairs)

    module _ (vertices : List (Point Num)) (shape : ShapeGeometry Num)
        (built : shape_geometry geo vertices ≡ some shape) where
      abbrev Fails : Num → Option (Point Num) → List (Pair Num) → Type 0
      Fails floor previous pairs =
          (build_stops geo (some shape) floor previous pairs ≡ none) × Any (IsBeyond shape) pairs

      failed_next :
          (floor : Num) (previous : Option (Point Num)) (pair : Pair Num) (pairs : List (Pair Num))
          (r : ShapeProjection Num)
          → project geo shape pair.stop_lat pair.stop_lon floor ≡ some r
          → build_stops geo
              (some shape)
              r.distance_along_m
              (some (pair.stop_lat, pair.stop_lon))
              pairs
            ≡ none
          → build_stops geo (some shape) floor previous (pair ∷ pairs) ≡ none
      unfolding build_stops distance_of
      failed_next floor previous pair pairs r found failed = rw (found, failed) refl

      failed_here :
          (floor : Num) (previous : Option (Point Num)) (pair : Pair Num) (pairs : List (Pair Num))
          → project geo shape pair.stop_lat pair.stop_lon floor ≡ none
          → build_stops geo (some shape) floor previous (pair ∷ pairs) ≡ none
      unfolding build_stops distance_of
      failed_here floor previous pair pairs failed = rw failed refl

      on_shape :
          (floor : Num) (previous : Option (Point Num)) (pairs : List (Pair Num))
          → lt (total_length_m geo shape) floor ≡ false
          → ((stops : List (StopOnTrip Num)) × ((build_stops geo (some shape) floor previous pairs
                  ≡ some stops)
                × IsSequence floor pairs stops))
            ⊎ Fails floor previous pairs
      on_shape floor previous [] h = inl ([], (unfold build_stops in refl, (refl, tt)))
      on_shape floor previous (pair ∷ pairs) h =
          let (r, (found, (grows, on))) =
            (project-decided geo nonnegative pair.stop_lat pair.stop_lon floor vertices shape
                built).1
              h in
          elim (Bool-cases (lt (total_length_m geo shape) r.distance_along_m)) [
            | inr within ↦
                elim (on_shape r.distance_along_m (some (pair.stop_lat, pair.stop_lon)) pairs
                  within) [
                    | inl done ↦ inl (
                        one_more (some shape) floor previous pair pairs r.distance_along_m
                          (taken r found) grows done)
                    | inr (failed, any) ↦
                        inr (failed_next floor previous pair pairs r found failed, inr any)
                  ]
            | inl beyond ↦ last_or_fails r found grows beyond pairs
          ]
        where
          taken :
              (r : ShapeProjection Num)
              → project geo shape pair.stop_lat pair.stop_lon floor ≡ some r
              → distance_of geo (some shape) floor previous pair ≡ some r.distance_along_m
          taken r found = unfold distance_of in rw found refl

          last_or_fails :
              (r : ShapeProjection Num)
              → project geo shape pair.stop_lat pair.stop_lon floor ≡ some r
              → AtMost number floor r.distance_along_m
              → lt (total_length_m geo shape) r.distance_along_m ≡ true
              → (rest : List (Pair Num))
              → ((stops : List (StopOnTrip Num)) × ((build_stops geo
                        (some shape)
                        floor
                        previous
                        (pair ∷ rest)
                      ≡ some stops)
                    × IsSequence floor (pair ∷ rest) stops))
                ⊎ Fails floor previous (pair ∷ rest)
          last_or_fails r found grows beyond [] = inl (
              one_more (some shape) floor previous pair [] r.distance_along_m (taken r found) grows
                ([], (unfold build_stops in refl, (refl, tt))))
          last_or_fails r found grows beyond (next ∷ rest) = inr (
            failed_next floor previous pair (next ∷ rest) r found (
                failed_here r.distance_along_m (some (pair.stop_lat, pair.stop_lon)) next rest (
                  (project-decided geo nonnegative next.stop_lat next.stop_lon r.distance_along_m
                      vertices shape built).0
                    beyond)),
            inl (floor, r, (found, beyond)),
          )

    -- The stops of a trip, given that no distance between two points is negative: without a shape
    -- there is a stop for each pair, in order, and no stop is at a smaller distance than the one
    -- before it or at a negative one. With a shape that `ShapeGeometry` built it is the same, unless
    -- the code raises, and then some stop was projected beyond the end of the shape.
    pub build_stop_sequence-IsSequence :
        (pairs : List (Pair Num)) (vertices : List (Point Num))
        → ((stops : List (StopOnTrip Num)) × ((build_stop_sequence geo pairs none ≡ some stops)
              × IsSequence zero pairs stops))
          × ((shape : ShapeGeometry Num)
              → shape_geometry geo vertices ≡ some shape
              → ((stops : List (StopOnTrip Num)) × ((build_stop_sequence geo pairs (some shape)
                      ≡ some stops)
                    × IsSequence zero pairs stops))
                ⊎ ((build_stop_sequence geo pairs (some shape) ≡ none)
                    × Any (IsBeyond shape) pairs))
    unfolding build_stop_sequence
    build_stop_sequence-IsSequence pairs vertices = (
      from_start pairs,
      λ shape built.
          on_shape vertices shape built zero none pairs
            (total-AtMost geo nonnegative vertices shape built),
    )
      where
        from_start :
            (rest : List (Pair Num))
            → (stops : List (StopOnTrip Num)) × ((build_stops geo none zero none rest ≡ some stops)
                × IsSequence zero rest stops)
        from_start [] = ([], (unfold build_stops in refl, (refl, tt)))
        from_start (pair ∷ rest) =
            one_more none zero none pair rest zero (unfold distance_of in refl) (lt_irrefl zero)
              (without_shape zero (pair.stop_lat, pair.stop_lon) rest)
