-- ===== src/Lib.antt =====
-- MetroPulse is the back end of a metro companion: it loads a GTFS timetable, follows the live
-- feed of vehicle positions, estimates arrivals, plans journeys and pushes what changes to its
-- clients over a WebSocket. This library models the parts of the service that carry its own logic
-- and proves what they promise. Paths below are from the root of the repository.
--
-- The parts and how they meet. GTFS texts are read into seconds and dates
-- (src/metropulse/domain/gtfs_time.py). The journey planner
-- (src/metropulse/application/journey_planner.py) builds a network from the timetable, searches
-- it by Dijkstra's algorithm and assembles a plan (src/metropulse/domain/journey.py) from the
-- actions that the search found. The realtime engine publishes numbered messages; in each API
-- process a hub (src/metropulse/application/live_hub.py) takes them from a bounded queue, records
-- them in a replay buffer and broadcasts them to the connected clients, and the endpoint /ws/live
-- (src/metropulse/api/ws/live.py) brings a new client up to date from the buffer or with a full
-- snapshot.
--
-- Gtfs. Text is what Python does with text: the Unicode database is a parameter (Unicode), of
-- which the laws ask that it agrees with ASCII; Text/Decimal has the laws on digits. Time is
-- parse_gtfs_time and format_gtfs_time, Date is parse_gtfs_date with the proleptic Gregorian
-- calendar.
-- Live. Message is what the hub reads of a message. Buffer is ReplayBuffer, Connections is
-- ConnectionManager with the sends of a broadcast and what other tasks do meanwhile as
-- parameters, Hub is LiveHub with the event loop's callbacks as a list, and its events as steps
-- in any order. Socket is the subscribe frame and the welcome of /ws/live.
-- Planner. Number is Python's float by the laws that the search needs, which rounding respects;
-- whole seconds are an instance. Search is the loop of _dijkstra and of travel_seconds_from over
-- any states and edges, with _relax and _reconstruct. heapq is its contract: the least of the
-- entries (cost, counter, state) is popped. Network is NetworkGraph, _search_weights and _expand
-- as the arcs out of a state; Network/Steps describes one step of a journey without reference to
-- _expand. Journey is _build_plan, plan and travel_seconds_from. Graph is _build_graph with
-- _build_patterns and _build_walk_edges, from a Timetable that holds what the queries return, and
-- haversine_m (src/metropulse/domain/geometry.py) over the functions of math as parameters
-- (Maths).
-- Realtime. Snapshot is diff_snapshots (src/metropulse/application/snapshot.py), Store the hashes
-- of RedisVehicleStore (src/metropulse/infrastructure/redis/vehicle_store.py) with the cycle of
-- RealtimeEngine (src/metropulse/application/realtime_engine.py) that fetches, compares, stores
-- and publishes; what is stale and what the train service makes of a position are given with each
-- fetch.
-- Static. Numbers is Python's int of a text, with float as a parameter. Rows and Columns are the
-- data and the required files of src/metropulse/application/validation.py, Checks and Validation
-- its checks: a check gives what it adds to the report, and the set that it returns; an issue has
-- a constructor for its message. Archive is read_gtfs_zip of
-- src/metropulse/application/static_loader.py on what zipfile, pathlib and csv read, Tables and
-- Conversion its rows and their conversions, Loader its load with the batches of
-- StaticLoadRepository; whether the database takes the rows, and the checksum, are parameters.
-- Validation/Sound says what a dataset without errors satisfies.
-- Trains. Geometry is the shape of a line and the projection onto it of
-- src/metropulse/domain/geometry.py, by the laws of Number and with math's functions as
-- parameters; Mapper, Resolver and Location are src/metropulse/application/route_resolver.py: the
-- candidates of an id, the context of a trip from what the queries return, and the place of a
-- train on it. That no distance is negative is a hypothesis on math's functions.
-- Commuter. Journeys is JourneyService (src/metropulse/application/commuter/journeys.py) on the
-- rows of its tables, with transactions one after another in any order. Sessions is
-- JourneySessionTracker (src/metropulse/application/commuter/journey_session.py) and the journeys
-- of a cycle of the rule engine (src/metropulse/application/commuter/rule_engine.py), which end
-- journeys through that service and put notifications beside its tables; what the resolver and
-- the estimator of arrivals answer is an interface (Trains).
-- Prelude. Native numbers, lists, dictionaries in insertion order, integers and JSON values,
-- shared by all.
--
-- Fuel. The search takes fuel for its rounds and for _reconstruct. It is two more than the number
-- of relaxations that states not yet settled can cause (Planner.Network.search_fuel); each round
-- pops one entry of the queue, and only the expansion of a state that was not settled before adds
-- entries. Every other loop is structural recursion.
--
-- Not modelled: the database, Redis, HTTP and FastAPI, which the source only calls; the heartbeat
-- of /ws/live; NaN, which the source makes no cost of; the cache of the graph and its lock. The
-- engine's writes to the history, its domain events and failures of Redis are left out, and so is
-- the JSON form of what the store keeps. The caches of the resolver with their single flight, the
-- titles and bodies of notifications, the alerts and reminders of the rule engine, the other
-- commuter services, the estimator of arrivals, the loaders of open data, the rate limiter and
-- the command line are not modelled.
pub mod Prelude
pub mod Gtfs
pub mod Live
pub mod Planner
pub mod Realtime
pub mod Static
pub mod Trains
pub mod Commuter
