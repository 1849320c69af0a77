-- ===== src/Planner/Journey.antt =====
-- Plans and their assembly: `plan`, `_build_plan` and `travel_seconds_from` of
-- src/metropulse/application/journey_planner.py, and src/metropulse/domain/journey.py.
pub mod Slices
pub mod Legs
mod Advance
pub mod Connected
pub mod Times
pub mod Planned
pub mod Examples
use metropulse.Prelude.{
  ℕ, suc, ◌+◌, ◌-◌, String, Bool, true, false, ◌&&◌, ◌⊎◌, inl, inr, Option, none, some, List, [],
  ◌∷◌, ◌++◌, map, if◌then◌else◌, ◌==◌, comparable_string, length, get_elem?, get_last?, take, drop,
  ◌>>=◌,
}
use metropulse.Prelude.Dict.{Dict, lookup, has_key}
use metropulse.Prelude.Int.{ℤ}
use metropulse.Planner.Number.{Number}
use metropulse.Planner.Search.{Outcome, found, exhausted, raised, out_of_fuel}
use metropulse.Planner.Network.{
  PatternKey, comparable_key, State, at, on, Action, board, ride, alight, walk, NetworkGraph,
  Pattern, PatternStop, PlannerParameters, at_costs, search, search_weights,
}

pub record JourneyStop : Type 0 where
  pub stop_id : String
  pub name : String

pub record RideLeg (Num : Type 0) : Type 0 where
  pub board : JourneyStop
  pub alight : JourneyStop
  pub route_id : String
  pub route_short_name : Option String
  pub route_long_name : Option String
  pub route_color : Option String
  pub direction_id : Option ℤ
  pub platform_hint : String
  pub stations : List JourneyStop
  pub ride_seconds : Num
  pub wait_seconds : Num

pub record WalkLeg (Num : Type 0) : Type 0 where
  pub board : JourneyStop
  pub alight : JourneyStop
  pub distance_m : Num
  pub walk_seconds : Num

pub data JourneyLeg (Num : Type 0) : Type 0 where
  ride_leg : RideLeg Num → JourneyLeg Num
  walk_leg : WalkLeg Num → JourneyLeg Num

pub record JourneyPlan (Num Instant : Type 0) : Type 0 where
  pub origin : JourneyStop
  pub destination : JourneyStop
  pub departure_at : Instant
  pub expected_arrival_at : Instant
  pub expected_travel_seconds : Num
  pub interchange_count : ℕ
  pub walking_distance_m : Num
  pub legs : List (JourneyLeg Num)

-- `[leg for leg in legs if isinstance(leg, RideLeg)]`
unfoldable pub ride_legs : {Num : Type 0} → List (JourneyLeg Num) → List (RideLeg Num)
ride_legs [] = []
ride_legs (ride_leg leg ∷ legs) = leg ∷ ride_legs legs
ride_legs (walk_leg leg ∷ legs) = ride_legs legs

unfoldable pub remaining_of : {Num : Type 0} → List (RideLeg Num) → List JourneyStop
remaining_of [] = []
remaining_of (leg ∷ legs) = drop 1 leg.stations ++ remaining_of legs

unfoldable pub remaining_stations :
    {Num Instant : Type 0} → JourneyPlan Num Instant → List JourneyStop
remaining_stations plan = remaining_of (ride_legs plan.legs)

unfoldable pub interchange_stops :
    {Num Instant : Type 0} → JourneyPlan Num Instant → List JourneyStop
interchange_stops plan =
    let rides = ride_legs plan.legs in map (λ leg. leg.alight) (take (length rides - 1) rides)

-- The local variables of `_build_plan`.
pub record Assembly (Num : Type 0) : Type 0 where
  pub legs : List (JourneyLeg Num)
  pub walking_total : Num
  pub total_seconds : Num
  pub board_index : Option ℕ
  pub board_key : Option PatternKey
  pub ride_seconds : Num

-- What `plan` raises. `internal` is a KeyError, IndexError or AssertionError, and `unending` no
-- exception, but a search that would not end.
pub data PlanError : Type 0 where
  no_route : PlanError
  unknown_entity : String → PlanError
  unknown_preference : PlanError
  internal : PlanError
  unending : PlanError

abbrev pub station : PatternStop → JourneyStop
station stop = record { stop_id = stop.stop_id; name = stop.name }

-- `board_key == key and board_index is not None`
abbrev pub boarded_at : Option PatternKey → PatternKey → Option ℕ → Option ℕ
boarded_at none key index = none
boarded_at (some boarded) key index = if boarded == key then index else none

abbrev pub name_of : String → Option String → String
name_of stop_id none = stop_id
name_of stop_id (some name) = name

module _ (number : Number) where
  open number use {Num, plus}

  unfoldable pub stop : NetworkGraph Num → String → JourneyStop
  stop graph stop_id = record {
    stop_id = stop_id;
    name = name_of stop_id (lookup stop_id graph.stop_names);
  }

  module _ (graph : NetworkGraph Num) (params : PlannerParameters Num) where
    -- `pattern.stops[board_index : alight_index + 1]`
    unfoldable pub stations_between : Pattern → ℕ → ℕ → List JourneyStop
    stations_between pattern from to = map station (take (to + 1 - from) (drop from pattern.stops))

    unfoldable pub make_ride_leg :
        Pattern → JourneyStop → JourneyStop → List JourneyStop → Num → RideLeg Num
    make_ride_leg pattern first last stations seconds = record {
      board = first;
      alight = last;
      route_id = pattern.route_id;
      route_short_name = pattern.route_short_name;
      route_long_name = pattern.route_long_name;
      route_color = pattern.route_color;
      direction_id = pattern.direction_id;
      platform_hint = pattern.headsign;
      stations = stations;
      ride_seconds = seconds;
      wait_seconds = params.board_penalty_seconds;
    }

    unfoldable pub make_walk_leg : String → String → Num → Num → WalkLeg Num
    make_walk_leg from_id to_id distance seconds = record {
      board = stop graph from_id;
      alight = stop graph to_id;
      distance_m = distance;
      walk_seconds = seconds;
    }

    -- one round of the loop over the actions; none is an exception
    unfoldable pub assemble : Assembly Num → Action Num → Option (Assembly Num)
    assemble st (walk from_id to_id distance seconds) = some (record st {
      legs = st.legs ++ walk_leg (make_walk_leg from_id to_id distance seconds) ∷ [];
      walking_total = plus st.walking_total distance;
      total_seconds = plus st.total_seconds seconds;
    })
    assemble st (board key index) = some (record st {
      board_key = some key;
      board_index = some index;
      ride_seconds = number.zero;
      total_seconds = plus st.total_seconds params.board_penalty_seconds;
    })
    assemble st (ride key index hop) = some (record st {
      ride_seconds = plus st.ride_seconds hop;
      total_seconds = plus st.total_seconds hop;
    })
    assemble st (alight key index) = do
      from ← boarded_at st.board_key key st.board_index
      pattern ← lookup key graph.patterns
      let stations = stations_between pattern from index
      first ← get_elem? stations 0
      last ← get_last? stations
      some (record st {
        legs = st.legs ++ ride_leg (make_ride_leg pattern first last stations st.ride_seconds) ∷ [];
        board_key = none;
        board_index = none;
      })

    unfoldable pub assemble_all : Assembly Num → List (Action Num) → Option (Assembly Num)
    assemble_all st [] = some st
    assemble_all st (action ∷ actions) = do st' ← assemble st action; assemble_all st' actions

    abbrev pub unassembled : Assembly Num
    unassembled = record {
      legs = [];
      walking_total = number.zero;
      total_seconds = number.zero;
      board_index = none;
      board_key = none;
      ride_seconds = number.zero;
    }

    -- `_build_plan`; `after` is the sum of a `datetime` and a `timedelta` in seconds
    module _ {Instant : Type 0} (after : Instant → Num → Instant) where
      unfoldable pub plan_of : String → String → Instant → Assembly Num → JourneyPlan Num Instant
      plan_of origin destination departure st = record {
        origin = stop graph origin;
        destination = stop graph destination;
        departure_at = departure;
        expected_arrival_at = after departure st.total_seconds;
        expected_travel_seconds = st.total_seconds;
        interchange_count = length (ride_legs st.legs) - 1;
        walking_distance_m = st.walking_total;
        legs = st.legs;
      }

      unfoldable pub build_plan :
          String → String → Instant → List (Action Num) → Option (JourneyPlan Num Instant)
      build_plan origin destination departure actions = do
        st ← assemble_all unassembled actions
        some (plan_of origin destination departure st)

      abbrev pub built : Option (JourneyPlan Num Instant) → PlanError ⊎ JourneyPlan Num Instant
      built none = inl internal
      built (some plan) = inr plan

      abbrev pub answer :
          String
          → String
          → Instant
          → Outcome Num State (Action Num)
          → PlanError ⊎ JourneyPlan Num Instant
      answer origin destination departure (found actions) =
          built (build_plan origin destination departure actions)
      answer origin destination departure (exhausted best) = inl no_route
      answer origin destination departure raised = inl internal
      answer origin destination departure out_of_fuel = inl unending

      abbrev pub weighed :
          String
          → String
          → Instant
          → Option (PlannerParameters Num)
          → PlanError ⊎ JourneyPlan Num Instant
      weighed origin destination departure none = inl unknown_preference
      weighed origin destination departure (some weights) =
          answer origin destination departure
            (search number graph weights origin (some (at destination)))

      -- `params` are those of the planner, `departure` is `departure_at or utcnow()`
      unfoldable pub plan : String → String → Instant → String → PlanError ⊎ JourneyPlan Num Instant
      plan origin destination departure preference =
          if origin == destination
          then inl no_route
          else if has_key origin graph.stop_names
          then if has_key destination graph.stop_names
            then weighed origin destination departure (search_weights number params preference)
            else inl (unknown_entity destination)
          else inl (unknown_entity origin)

    abbrev pub costs_of : Outcome Num State (Action Num) → PlanError ⊎ Dict String Num
    costs_of (found actions) = inl internal
    costs_of (exhausted best) = inr (at_costs number graph params best)
    costs_of raised = inl internal
    costs_of out_of_fuel = inl unending

    unfoldable pub travel_seconds_from : String → PlanError ⊎ Dict String Num
    travel_seconds_from origin =
        if has_key origin graph.stop_names
        then costs_of (search number graph params origin none)
        else inl (unknown_entity origin)
