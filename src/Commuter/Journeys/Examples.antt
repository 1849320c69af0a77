-- ===== src/Commuter/Journeys/Examples.antt =====
-- Journeys of one user (src/metropulse/application/commuter/journeys.py).
use metropulse.Prelude.{ℕ, String, refl, inl, Bool, true, false, some, none, List, [], ◌∷◌, arith}
use metropulse.Commuter.Journeys.{
  Journey, completed, Tables, Request, Operation, start_it, complete_it, operate_all,
}
use metropulse.Commuter.Journeys.Active.{IsSingle, active_count, operate_all-IsSingle}
use metropulse.Commuter.Journeys.Ended.{IsRow, operate_all_kept}

abbrev everywhere : String → Bool
everywhere stop_id = true

abbrev request : Request
request = record {
  user_id = "u";
  origin_stop_id = "A";
  destination_stop_id = "B";
  vehicle_id = none;
  route_id = none;
  trip_id = none;
  interchange_stop_ids = [];
}

abbrev done : Journey
done = record {
  id = 1;
  user_id = "u";
  origin_stop_id = "A";
  destination_stop_id = "B";
  route_id = none;
  vehicle_id = none;
  trip_id = none;
  status = completed;
  started_at = 5;
  ended_at = some 9;
  interchange_stop_ids = [];
  notified_interchanges = [];
  delay_notified = false;
}

abbrev tables : Tables
tables = record { journeys = done ∷ []; events = []; next_id = 2; published = [] }

abbrev operations : List (Operation × ℕ)
operations =
    (start_it request, 10)
    ∷ (start_it request, 20)
    ∷ (complete_it "u" 3 false, 30)
    ∷ (complete_it "u" 2 false, 40)
    ∷ []

tables-IsSingle : IsSingle tables.journeys
unfolding active_count
tables-IsSingle user = ground arith

operate_all-IsSingle_example : IsSingle (operate_all everywhere tables operations).journeys
operate_all-IsSingle_example = operate_all-IsSingle everywhere tables operations tables-IsSingle

operate_all_kept_example : IsRow done (operate_all everywhere tables operations).journeys
operate_all_kept_example = operate_all_kept everywhere tables operations done refl (inl refl)
