-- ===== src/Trains/Location/Located.antt =====
-- The station at which a train is, and the next one (`_locate_by_distance`).
use mathlib.Core.List.{append_assoc}
use metropulse.Prelude.{
  Bool, true, false, Option, none, some, List, [], ◌∷◌, ◌++◌, ◌≡◌, refl, sym, ap, ◌⊎◌, inl, inr,
  All, All-append, Bool-cases, get_last?, get_last?-snoc,
}
use metropulse.Planner.Number.{AtMost}
use metropulse.Trains.Geometry.{Geo}
use metropulse.Trains.Resolver.{StopOnTrip, first_of}
use metropulse.Trains.Location.{is_within, at_stop, between_stops, locate_by_distance}

module _ (geo : Geo) (distance radius : geo.number.Num) where
  open geo use {number}
  open number use {Num, lt}

  abbrev pub Near : Bool → StopOnTrip Num → Type 0
  Near b stop = is_within geo stop.distance_along_shape_m distance radius ≡ b

  abbrev Behind : StopOnTrip Num → Type 0
  Behind stop = AtMost number stop.distance_along_shape_m distance

  abbrev Ahead : Option (StopOnTrip Num) → Type 0
  Ahead none = Unit
  Ahead (some stop) = lt distance stop.distance_along_shape_m ≡ true

  -- the first stop that is near, with the one after it
  abbrev pub IsAt : List (StopOnTrip Num) → StopOnTrip Num × Option (StopOnTrip Num) → Type 0
  IsAt stops found =
      (before : List (StopOnTrip Num)) × (after : List (StopOnTrip Num)) × ((stops
          ≡ before ++ found.0 ∷ after)
        × (All (Near false) before × (Near true found.0 × (found.1 ≡ first_of after))))

  at_stop-cases :
      (stops : List (StopOnTrip Num))
      → ((found : StopOnTrip Num × Option (StopOnTrip Num)) × ((at_stop geo stops distance radius
              ≡ some found)
            × IsAt stops found))
        ⊎ ((at_stop geo stops distance radius ≡ none) × All (Near false) stops)
  unfolding at_stop
  at_stop-cases [] = inr (refl, tt)
  at_stop-cases (stop ∷ stops) =
      elim (Bool-cases (is_within geo stop.distance_along_shape_m distance radius)) [
        | inl e ↦ inl ((stop, first_of stops), (rw e refl, ([], stops, (refl, (tt, (e, refl))))))
        | inr e ↦ elim (at_stop-cases stops) [
          | inl (found, (same, (before, after, (split, (far, (near, next)))))) ↦ inl (
            found,
            (
              rw e same,
              (
                stop ∷ before,
                after,
                (ap (λ (s : List (StopOnTrip Num)). stop ∷ s) split, ((e, far), (near, next))),
              ),
            ),
          )
          | inr (same, far) ↦ inr (rw e same, (e, far))
        ]
      ]

  -- the stops up to the current one, and those from the next one on
  abbrev pub Splits :
      List (StopOnTrip Num) → Option (StopOnTrip Num) × Option (StopOnTrip Num) → Type 0
  Splits stops found =
      (before : List (StopOnTrip Num)) × (after : List (StopOnTrip Num)) × ((stops
          ≡ before ++ after)
        × (All Behind before
            × ((found.0 ≡ get_last? before) × ((found.1 ≡ first_of after) × Ahead found.1))))

  between_stops-Splits :
      (passed rest : List (StopOnTrip Num))
      → All Behind passed
      → Splits (passed ++ rest) (between_stops geo (get_last? passed) rest distance)
  unfolding between_stops
  between_stops-Splits passed [] h = (passed, [], (refl, (h, (refl, (refl, tt)))))
  between_stops-Splits passed (stop ∷ rest) h =
      elim (Bool-cases (lt distance stop.distance_along_shape_m)) [
        | inl e ↦ rw e (passed, stop ∷ rest, (refl, (h, (refl, (refl, e)))))
        | inr e ↦
            rw (e, sym (get_last?-snoc passed stop), sym (append_assoc passed (stop ∷ []) rest))
              (between_stops-Splits (passed ++ stop ∷ []) rest
                (All-append Behind passed (stop ∷ []) h (e, tt)))
      ]

  -- Where a train is, by its distance along the trip, for any stops: at a station if and only if some
  -- stop is within the radius, and then at the first such stop, with the stop after it as the next
  -- one; otherwise the stops fall in two, those up to the current one, none of them beyond the train,
  -- and those from the next one on, which is beyond the train.
  pub locate_by_distance-Splits :
      (stops : List (StopOnTrip Num))
      → ((stop : StopOnTrip Num) × (next : Option (StopOnTrip Num)) × ((locate_by_distance geo stops
                distance radius
              ≡ (some stop, (next, true)))
            × IsAt stops (stop, next)))
        ⊎ ((found : Option (StopOnTrip Num) × Option (StopOnTrip Num)) × ((locate_by_distance geo
                  stops distance radius
                ≡ (found.0, (found.1, false)))
              × (All (Near false) stops × Splits stops found)))
  unfolding locate_by_distance
  locate_by_distance-Splits stops = elim (at_stop-cases stops) [
    | inl (found, (same, at)) ↦ inl (found.0, found.1, (rw same refl, at))
    | inr (same, far) ↦ inr (
      between_stops geo none stops distance,
      (rw same refl, (far, between_stops-Splits [] stops tt)),
    )
  ]
