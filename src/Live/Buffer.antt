-- ===== src/Live/Buffer.antt =====
-- `ReplayBuffer` of src/metropulse/application/live_hub.py.
pub mod Replay
pub mod Numbered
pub mod Examples
use metropulse.Prelude.{
  ℕ, ◌≡◌, Bool, Option, none, some, List, [], ◌∷◌, ◌++◌, map, ltb, if◌then◌else◌, length, filter,
  get_last?,
}
use metropulse.Prelude.Int.{ℤ, pos, ltb_ℤ, leb_ℤ, ◌-ℤ◌}
use metropulse.Live.Message.{Message}

abbrev pub Entry : Type 0
Entry = ℤ × Message

pub record ReplayBuffer : Type 0 where
  pub max_size : ℕ
  pub buffer : List Entry

abbrev pub empty : ℕ → ReplayBuffer
empty max_size = record { max_size = max_size; buffer = [] }

abbrev pub tail : List Entry → List Entry
tail [] = []
tail (x ∷ xs) = xs

-- a `deque` with `maxlen` drops its oldest item when it is full
unfoldable pub add : ReplayBuffer → ℤ → Message → ReplayBuffer
add b sequence message =
    let longer = b.buffer ++ (sequence, message) ∷ [] in
    record b { buffer = if ltb b.max_size (length longer) then tail longer else longer }

unfoldable pub latest_sequence : ReplayBuffer → Option ℤ
latest_sequence b = elim (get_last? b.buffer) [ none ↦ none | some e ↦ some e.0 ]

abbrev pub newer : ℤ → List Entry → List Message
newer last entries = map (λ (e : Entry). e.1) (filter (λ (e : Entry). ltb_ℤ last e.0) entries)

-- The body of `since` on a buffer with first entry `oldest` and last entry `newest`.
abbrev pub between : ℤ → ℤ → ℤ → List Entry → Option (List Message)
between last oldest newest entries =
    if leb_ℤ newest last
    then some []
    else if ltb_ℤ last (oldest -ℤ pos 1)
    then none
    else some (newer last entries)

abbrev pub since_entries : ℤ → List Entry → Option (List Message)
since_entries last [] = none
since_entries last (first ∷ rest) = elim (get_last? (first ∷ rest)) [
  | none ↦ none
  | some latest ↦ between last first.0 latest.0 (first ∷ rest)
]

unfoldable pub since : ReplayBuffer → ℤ → Option (List Message)
since b last_sequence = since_entries last_sequence b.buffer
