-- ===== src/Planner/Search/Invariant.antt =====
-- The invariant of the search loop between two rounds, in the state of
-- src/metropulse/application/journey_planner.py. `settled`: the states that have been expanded, the
-- last one first; `level`: the cost of the last one.
use metropulse.Prelude.{
  ◌≡◌, refl, ◌∙◌, ◌⊎◌, true, false, Option, some, List, [], ◌∷◌, All, Any, Comparable, contains,
}
use metropulse.Prelude.Dict.{Dict, lookup}
use metropulse.Planner.Number.{Number, AtMost}
use metropulse.Planner.Search.{Edge, Entry, Search}
use metropulse.Planner.Search.Queue.{Apart}

module _ (number : Number) (State Action : Type 0) ⦃keys : Comparable State⦄
    (edges : State → number.Num → Option (List (Edge number.Num State Action)))
    (start : State) where
  open number use {Num, lt}

  -- `edges` leads from `p`, reached at cost `c`, to `t` at cost `w` by the action `a`.
  abbrev pub OnEdge : State → Num → State → Num → Action → Type 0
  OnEdge p c t w a =
      (es : List (Edge Num State Action)) × (edges p c ≡ some es)
      × Any (λ e. (e.to ≡ t) × (e.cost ≡ w) × (e.action ≡ a)) es

  abbrev pub In : State → List State → Type 0
  In s settled = contains s settled ≡ true

  abbrev pub Best : Type 0
  Best = Dict State Num

  abbrev pub Prev : Type 0
  Prev = Dict State (State × Action)

  -- how `s` came by its cost `b`
  pub record Reached (settled : List State) (best : Best) (prev : Prev) (s : State) (b : Num)
      : Type 0 where
    pub parent : State
    pub action : Action
    pub cost : Num
    pub is_prev : lookup s prev ≡ some (parent, action)
    pub is_settled : In parent settled
    pub is_cost : lookup parent best ≡ some cost
    pub on_edge : OnEdge parent cost s b action

  abbrev pub Explained : List State → Best → Prev → State → Num → Type 0
  Explained settled best prev s b = (s ≡ start) ⊎ Reached settled best prev s b

  -- A settled state is explained by states that were settled before it.
  abbrev pub Ordered : Best → Prev → List State → Type 0
  Ordered best prev [] = Unit
  Ordered best prev (s ∷ settled) =
      ((b : Num) → lookup s best ≡ some b → Explained settled best prev s b)
      × Ordered best prev settled

  -- An entry is at or above the level, and its state costs as much or less by now.
  abbrev pub Current : Best → Num → Entry number State → Type 0
  Current best level e =
      AtMost number level e.0
      × ((b : Num) × (lookup e.2 best ≡ some b) × ((b ≡ e.0) ⊎ (lt b e.0 ≡ true)))

  -- An entry of a settled state is out of date.
  abbrev pub OutOfDate : List State → Best → Entry number State → Type 0
  OutOfDate settled best e = In e.2 settled → (b : Num) → lookup e.2 best ≡ some b → lt b e.0 ≡ true

  abbrev pub IsEntryOf : State → Num → Entry number State → Type 0
  IsEntryOf s b e = (e.0 ≡ b) × (e.2 ≡ s)

  pub record Inv (settled : List State) (level : Num) (st : Search number State Action)
      : Type 0 where
    pub origin : lookup start st.best ≡ some number.zero
    pub level_pos : AtMost number number.zero level
    pub settled_low :
        (s : State) → In s settled → (b : Num) × (lookup s st.best ≡ some b) × AtMost number b level
    pub queue_current : All (Current st.best level) st.queue
    pub queue_stale : All (OutOfDate settled st.best) st.queue
    pub queue_apart : Apart number State st.queue
    pub queued :
        (s : State) (b : Num)
        → lookup s st.best ≡ some b
        → In s settled ⊎ Any (IsEntryOf s b) st.queue
    pub explained :
        (s : State) (b : Num)
        → lookup s st.best ≡ some b
        → contains s settled ≡ false
        → Explained settled st.best st.prev s b
    pub ordered : Ordered st.best st.prev settled

module _ (number : Number) (State Action : Type 0) ⦃keys : Comparable State⦄ where
  open number use {Num, lt, lt_irrefl, lt_asymm, at_most_trans}

  -- `t` is known at cost `w` or less.
  abbrev pub Known : Search number State Action → State → Num → Type 0
  Known st t w = (b : Num) × (lookup t st.best ≡ some b) × AtMost number b w

  -- what a relaxation leaves as it was
  pub record Kept (settled : List State) (st st' : Search number State Action) : Type 0 where
    pub same_best : (u : State) → contains u settled ≡ true → lookup u st'.best ≡ lookup u st.best
    pub still_known : (t : State) (w : Num) → Known st t w → Known st' t w

  pub Kept-refl : (settled : List State) (st : Search number State Action) → Kept settled st st
  Kept-refl settled st = record { same_best = λ u h. refl; still_known = λ t w h. h }

  pub Kept-trans :
      (settled : List State) (x y z : Search number State Action)
      → Kept settled x y
      → Kept settled y z
      → Kept settled x z
  Kept-trans settled x y z h k = record {
    same_best = λ u s. k.same_best u s ∙ h.same_best u s;
    still_known = λ t w n. k.still_known t w (h.still_known t w n);
  }
