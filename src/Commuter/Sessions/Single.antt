-- ===== src/Commuter/Sessions/Single.antt =====
-- The active journeys of a user, with the worker and the service together
-- (src/metropulse/application/commuter/rule_engine.py and journeys.py).
use metropulse.Prelude.{comparable_nat}
use metropulse.Commuter.Journeys.Active.{IsSingle}
use metropulse.Commuter.Sessions.{Tracker, Sessions}

module _ (tracker : Tracker) where
  open tracker use {number}
  open number use {Num}

  abbrev Single : Sessions Num → Type 0
  Single st = IsSingle st.tables.journeys
