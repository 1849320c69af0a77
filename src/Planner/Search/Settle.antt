-- ===== src/Planner/Search/Settle.antt =====
-- The invariant when an entry is popped
-- (src/metropulse/application/journey_planner.py).
use metropulse.Prelude.{
  ℕ, ◌≡◌, sym, ap, subst, ◌∙◌, ◌⊎◌, inl, inr, true, false, Option, some, List, ◌∷◌, Bool-cases, All,
  All-zip, Any, or_right, Comparable, contains, key_cases, not_both,
}
use mathlib.Core.Option.{some-injective}
use metropulse.Prelude.Dict.{Dict, lookup}
use metropulse.Planner.Number.{Number}
use metropulse.Planner.Search.{Edge, Entry, Search, pop_min, is_stale}
use metropulse.Planner.Search.Queue.{
  Apart, Apart-pop_min, Differ, NoCheaper, pop_min-NoCheaper, All-pop_min, Any-pop_min,
}
use metropulse.Planner.Search.Relax.{I, In, Current, OutOfDate, Explained, IsEntryOf}

module _ (number : Number) (State Action : Type 0) ⦃keys : Comparable State⦄
    (edges : State → number.Num → Option (List (Edge number.Num State Action))) (start : State)
    (settled : List State) (level : number.Num) (best : Dict State number.Num)
    (prev : Dict State (State × Action)) (counter : ℕ) (e : Entry number State)
    (es : List (Entry number State))
    (inv : I number State Action edges start settled level
      (record { best = best; prev = prev; queue = e ∷ es; counter = counter })) where
  open number use {Num, lt, lt_irrefl, at_most_trans}

  abbrev m : Entry number State
  m = (pop_min number State e es).0

  abbrev rest : List (Entry number State)
  rest = (pop_min number State e es).1

  abbrev popped : Search number State Action
  popped = record { best = best; prev = prev; queue = rest; counter = counter }

  currents :
      Current number State Action edges start best level m
      × All (Current number State Action edges start best level) rest
  currents =
      All-pop_min number State (Current number State Action edges start best level) e es
        inv.queue_current.0 inv.queue_current.1

  stales :
      OutOfDate number State Action edges start settled best m
      × All (OutOfDate number State Action edges start settled best) rest
  stales =
      All-pop_min number State (OutOfDate number State Action edges start settled best) e es
        inv.queue_stale.0 inv.queue_stale.1

  apart : Apart number State (m ∷ rest)
  apart = Apart-pop_min number State e es inv.queue_apart

  cheapest : All (NoCheaper number State m) rest
  cheapest = (pop_min-NoCheaper number State e es).1

  among :
      (s : State) (b : Num)
      → Any (IsEntryOf number State Action edges start s b) (e ∷ es)
      → IsEntryOf number State Action edges start s b m
        ⊎ Any (IsEntryOf number State Action edges start s b) rest
  among s b = Any-pop_min number State (IsEntryOf number State Action edges start s b) e es

  pub stale-Inv :
      is_stale number m.0 (lookup m.2 best) ≡ true
      → I number State Action edges start settled level popped
  stale-Inv stale = record {
    origin = inv.origin;
    level_pos = inv.level_pos;
    settled_low = inv.settled_low;
    queue_current = currents.1;
    queue_stale = stales.1;
    queue_apart = apart.1;
    queued = λ s b is_b. elim (inv.queued s b is_b) [
      | inl h ↦ inl h
      | inr h ↦ elim (among s b h) [
        | inr k ↦ inr k
        | inl (cost, same) ↦
            not_both
              (sym (
                  ap (λ (o : Option Num). is_stale number m.0 o)
                    (ap (λ (t : State). lookup t best) same ∙ is_b))
                ∙ stale)
              (subst (λ (n : Num). lt b n ≡ false) (sym cost) (lt_irrefl b))
      ]
    ];
    explained = inv.explained;
    ordered = inv.ordered;
  }

  module _ (fresh : is_stale number m.0 (lookup m.2 best) ≡ false) where
    pub is_cost : lookup m.2 best ≡ some m.0
    is_cost =
        let (b, is_b, order) = currents.0.1 in
        elim order [
          | inl same ↦ is_b ∙ ap some same
          | inr less ↦ not_both (ap (λ (o : Option Num). is_stale number m.0 o) is_b ∙ less) fresh
        ]

    pub unsettled : contains m.2 settled ≡ false
    unsettled = elim (Bool-cases (contains m.2 settled)) [
      | inr h ↦ h
      | inl h ↦ not_both (stales.0 h m.0 is_cost) (lt_irrefl m.0)
    ]

    abbrev now : List State
    now = m.2 ∷ settled

    In-old :
        (s : State)
        → keys.equal m.2 s ≡ false
        → In number State Action edges start s now
        → In number State Action edges start s settled
    In-old s other h = rw other at h

    weaken :
        (s : State) (b : Num)
        → Explained number State Action edges start settled best prev s b
        → Explained number State Action edges start now best prev s b
    weaken s b (inl first) = inl first
    weaken s b (inr r) = inr (record {
      parent = r.parent;
      action = r.action;
      cost = r.cost;
      is_prev = r.is_prev;
      is_settled = or_right (keys.equal m.2 r.parent) r.is_settled;
      is_cost = r.is_cost;
      on_edge = r.on_edge;
    })

    still-Open : (s : State) → contains s now ≡ false → contains s settled ≡ false
    still-Open s h = elim (Bool-cases (contains s settled)) [
      | inr k ↦ k
      | inl k ↦ not_both (or_right (keys.equal m.2 s) k) h
    ]

    Current-now :
        (x : Entry number State)
        → Current number State Action edges start best level x
        → NoCheaper number State m x
        → Current number State Action edges start best m.0 x
    Current-now x h k = (k, h.1)

    stale_now :
        (x : Entry number State)
        → OutOfDate number State Action edges start settled best x
        → Differ number State m x × NoCheaper number State m x
        → OutOfDate number State Action edges start now best x
    stale_now x h k s b is_b = elim (key_cases m.2 x.2) [
      | inr other ↦ h (In-old x.2 other s) b is_b
      | inl same ↦
          let eq : m.0 ≡ b =
            some-injective _ _ (sym is_cost ∙ ap (λ (t : State). lookup t best) same ∙ is_b) in
          elim (k.0 same) [
            | inl less ↦ subst (λ (n : Num). lt n x.0 ≡ true) eq less
            | inr more ↦ not_both more k.1
          ]
    ]

    pub settle-Inv : I number State Action edges start now m.0 popped
    settle-Inv = record {
      origin = inv.origin;
      level_pos = at_most_trans number.zero level m.0 inv.level_pos currents.0.0;
      settled_low = λ s h. elim (key_cases m.2 s) [
        | inl same ↦ (m.0, ap (λ (t : State). lookup t best) (sym same) ∙ is_cost, lt_irrefl m.0)
        | inr other ↦
            let (b, is_b, low) = inv.settled_low s (In-old s other h) in
            (b, is_b, at_most_trans b level m.0 low currents.0.0)
      ];
      queue_current = All-zip _ _ _ Current-now rest currents.1 cheapest;
      queue_stale = All-zip _ _ _ stale_now rest stales.1 (
          All-zip _ _ (λ x. Differ number State m x × NoCheaper number State m x) (λ x d c. (d, c))
            rest apart.0 cheapest);
      queue_apart = apart.1;
      queued = λ s b is_b. elim (inv.queued s b is_b) [
        | inl h ↦ inl (or_right (keys.equal m.2 s) h)
        | inr h ↦ elim (among s b h) [
          | inr k ↦ inr k
          | inl (cost, same) ↦ inl (rw ((keys.equal_iff m.2 s).1 same))
        ]
      ];
      explained = λ s b is_b h. weaken s b (inv.explained s b is_b (still-Open s h));
      ordered = ((λ b is_b. inv.explained m.2 b is_b unsettled), inv.ordered);
    }
