-- ===== src/Live/Buffer/Examples.antt =====
-- A buffer with room for two messages that has recorded three, numbered 5, 6 and 7.
use metropulse.Prelude.{none, some, [], ◌∷◌, ◌≡◌, arith}
use metropulse.Prelude.Int.{pos}
use metropulse.Live.Message.{unparseable}
use metropulse.Live.Buffer.{empty, since}
use metropulse.Live.Buffer.Replay.{record_all}
use metropulse.Live.Buffer.Numbered.{numbered, since-numbered}

-- a client that has seen 5 is sent 6 and 7
since-numbered_example :
    since
      (record_all (empty 2) (numbered 5 (unparseable "a" ∷ unparseable "b" ∷ unparseable "c" ∷ [])))
      (pos 5)
    ≡ some (unparseable "b" ∷ unparseable "c" ∷ [])
since-numbered_example =
    since-numbered 2 5 5 (unparseable "a") (unparseable "b" ∷ unparseable "c" ∷ []) (omega arith)

-- a client that has seen 3 misses 5 for good
since_refused :
    since
      (record_all (empty 2) (numbered 5 (unparseable "a" ∷ unparseable "b" ∷ unparseable "c" ∷ [])))
      (pos 3)
    ≡ none
since_refused =
    since-numbered 2 5 3 (unparseable "a") (unparseable "b" ∷ unparseable "c" ∷ []) (omega arith)
