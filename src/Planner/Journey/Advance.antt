-- ===== src/Planner/Journey/Advance.antt =====
-- One action of a journey, assembled: what the assembly then holds
-- (src/metropulse/application/journey_planner.py).
use metropulse.Prelude.{
  ℕ, ◌+◌, ◌≤◌, String, ◌≡◌, refl, sym, ap, subst, ◌∙◌, none, some, List, [], ◌∷◌, ◌++◌, All,
  All-append, All-at, Any, get_elem?, get_last?, equal_refl, comparable_string, arith,
}
use mathlib.Core.Option.{some-injective}
use metropulse.Prelude.Dict.{lookup}
use metropulse.Planner.Number.{Number}
use metropulse.Planner.Network.{
  PatternKey, comparable_key, State, at, on, Action, board, ride, alight, walk, NetworkGraph,
  Pattern, PatternStop, PlannerParameters, WalkEdge, hop,
}
use metropulse.Planner.Network.Steps.{Step, boards, walks, rides, alights}
use metropulse.Planner.Network.Placed.{IsConsistent, StopsAt}
use metropulse.Planner.Journey.{
  JourneyStop, ride_leg, Assembly, assemble, make_ride_leg, make_walk_leg, station,
  stations_between, stop,
}
use metropulse.Planner.Journey.Slices.{first-stations, last-stations}
use metropulse.Planner.Journey.Legs.{Chain, Chain-snoc, IsLeg}

module _ (number : Number) (graph : NetworkGraph number.Num) (params : PlannerParameters number.Num)
    (weights : PlannerParameters number.Num) (consistent : IsConsistent graph)
    (origin : String) where
  open number use {Num}

  abbrev pub Legs : Assembly Num → String → Type 0
  Legs st to = Chain origin st.legs to × All (IsLeg graph) st.legs

  pub record Riding (key : PatternKey) (index : ℕ) (st : Assembly Num) : Type 0 where
    pub pattern : Pattern
    pub from : ℕ
    pub first : PatternStop
    pub is_key : st.board_key ≡ some key
    pub is_index : st.board_index ≡ some from
    pub is_pattern : lookup key graph.patterns ≡ some pattern
    pub is_first : get_elem? pattern.stops from ≡ some first
    pub order : from ≤ index
    pub legs : Legs st first.stop_id

  abbrev pub Held : State → Assembly Num → Type 0
  Held (at stop_id) st = Legs st stop_id
  Held (on key index) st = Riding key index st

  abbrev pub Next : State → Assembly Num → Action Num → Type 0
  Next t st action =
      (st' : Assembly Num) × (assemble number graph params st action ≡ some st') × Held t st'

  next_walk :
      (st : Assembly Num) (stop_id : String) (edges : List (WalkEdge Num)) (edge : WalkEdge Num)
      → Legs st stop_id
      → lookup stop_id graph.walk_edges ≡ some edges
      → Any (λ e. e ≡ edge) edges
      → Next
          (at edge.to_stop_id)
          st
          (walk stop_id edge.to_stop_id edge.distance_m edge.walk_seconds)
  unfolding assemble make_walk_leg stop
  next_walk st stop_id edges edge (chain, all_legs) there is_in = (
    _,
    refl,
    (
      Chain-snoc origin stop_id edge.to_stop_id st.legs _ chain refl refl,
      All-append (IsLeg graph) st.legs _ all_legs
          ((edges, edge, there, is_in, refl, refl, refl), tt),
    ),
  )

  next_board :
      (st : Assembly Num) (stop_id : String) (key : PatternKey) (index : ℕ)
      → Legs st stop_id
      → StopsAt graph stop_id key index
      → Next (on key index) st (board key index)
  unfolding assemble
  next_board st stop_id key index (chain, all_legs) (pattern, here, is_pattern, is_here, is_stop) =
      (
        _,
        refl,
        record {
          pattern = pattern;
          from = index;
          first = here;
          is_key = refl;
          is_index = refl;
          is_pattern = is_pattern;
          is_first = is_here;
          order = omega arith;
          legs = (subst (λ (s : String). Chain origin st.legs s) (sym is_stop) chain, all_legs);
        },
      )

  next_ride :
      (st : Assembly Num) (key : PatternKey) (index : ℕ) (hop : Num)
      → Riding key index st
      → Next (on key (index + 1)) st (ride key (index + 1) hop)
  unfolding assemble
  next_ride st key index hop riding = (
    _,
    refl,
    record {
      pattern = riding.pattern;
      from = riding.from;
      first = riding.first;
      is_key = riding.is_key;
      is_index = riding.is_index;
      is_pattern = riding.is_pattern;
      is_first = riding.is_first;
      order = omega (arith, riding.order);
      legs = riding.legs;
    },
  )

  alighted :
      (st : Assembly Num) (key : PatternKey) (index from : ℕ) (pattern : Pattern)
      (first last : JourneyStop)
      → st.board_key ≡ some key
      → st.board_index ≡ some from
      → lookup key graph.patterns ≡ some pattern
      → get_elem? (stations_between number graph params pattern from index) 0 ≡ some first
      → get_last? (stations_between number graph params pattern from index) ≡ some last
      → assemble number graph params st (alight key index)
        ≡ some (record st {
          legs =
              st.legs
              ++ ride_leg (
                  make_ride_leg number graph params pattern first last
                    (stations_between number graph params pattern from index)
                    st.ride_seconds)
                ∷ [];
          board_key = none;
          board_index = none;
        })
  unfolding assemble
  alighted st key index from pattern first last p q r f l = rw (p, equal_refl key, q, r, f, l) refl

  next_alight :
      (st : Assembly Num) (key : PatternKey) (index : ℕ) (pattern : Pattern) (here : PatternStop)
      → Riding key index st
      → lookup key graph.patterns ≡ some pattern
      → get_elem? pattern.stops index ≡ some here
      → Next (at here.stop_id) st (alight key index)
  unfolding stations_between make_ride_leg
  next_alight st key index pattern here riding is_pattern is_here =
      let same : riding.pattern ≡ pattern =
        some-injective _ _ (sym riding.is_pattern ∙ is_pattern) in
      let is_first =
        ap (λ (p : Pattern). get_elem? p.stops riding.from) (sym same) ∙ riding.is_first in
      let first =
        first-stations station pattern.stops riding.from index riding.order riding.first is_first in
      let last = last-stations station pattern.stops riding.from index riding.order here is_here in
      (
        _,
        alighted st key index riding.from pattern (station riding.first) (station here)
            riding.is_key riding.is_index is_pattern first last,
        (
          Chain-snoc origin riding.first.stop_id here.stop_id st.legs _ riding.legs.0 refl refl,
          All-append (IsLeg graph) st.legs _ riding.legs.1 (
            (key, pattern, riding.from, index, is_pattern, riding.order, refl, first, last, refl),
            tt,
          ),
        ),
      )

  placed :
      (stop_id : String) (entries : List (PatternKey × ℕ)) (key : PatternKey) (index : ℕ)
      → lookup stop_id graph.patterns_at ≡ some entries
      → Any (λ entry. entry ≡ (key, index)) entries
      → StopsAt graph stop_id key index
  placed stop_id entries key index there is_in =
      let (entry, stops, same) =
        All-at (λ x. StopsAt graph stop_id x.0 x.1) (λ x. x ≡ (key, index)) entries
          (consistent stop_id entries there) is_in in
      subst (λ (x : PatternKey × ℕ). StopsAt graph stop_id x.0 x.1) same stops

  pub next :
      (s : State) (c : Num) (t : State) (w : Num) (action : Action Num) (st : Assembly Num)
      → Held s st
      → Step number graph weights s c t w action
      → Next t st action
  next s c t w action st held
        (boards stop_id entries key index pattern is_s there is_in _ _ is_t _ is_a) =
      subst (Next t st) is_a (
        subst (λ (u : State). Next u st (board key index)) (sym is_t)
          (next_board st stop_id key index (subst (λ (u : State). Held u st) is_s held)
            (placed stop_id entries key index there is_in)))
  next s c t w action st held (walks stop_id edges edge is_s there is_in is_t _ is_a) =
      subst (Next t st) is_a (
        subst
          (λ (u : State).
            Next u st (walk stop_id edge.to_stop_id edge.distance_m edge.walk_seconds))
          (sym is_t)
          (next_walk st stop_id edges edge (subst (λ (u : State). Held u st) is_s held) there
            is_in))
  next s c t w action st held (rides key index pattern here after is_s _ _ _ is_t _ is_a) =
      subst (Next t st) is_a (
        subst
          (λ (u : State). Next u st (ride key (index + 1) (hop number graph weights here after)))
          (sym is_t)
          (next_ride st key index (hop number graph weights here after)
            (subst (λ (u : State). Held u st) is_s held)))
  next s c t w action st held (alights key index pattern here is_s is_pattern is_here is_t _ is_a) =
      subst (Next t st) is_a (
        subst (λ (u : State). Next u st (alight key index)) (sym is_t)
          (next_alight st key index pattern here (subst (λ (u : State). Held u st) is_s held)
            is_pattern is_here))
