-- ===== src/Planner/Search/Routes.antt =====
-- Routes through the network, what `_reconstruct` makes of the predecessors, and why no route is
-- cheaper than the search says (src/metropulse/application/journey_planner.py).
use mathlib.Core.List.{reverse, reverse-append, append_assoc}
use metropulse.Prelude.{
  ℕ, zero, suc, ◌≤◌, ◌≡◌, refl, sym, ap, subst, ◌∙◌, ◌⊎◌, inl, inr, true, false, Option, some, List,
  [], ◌∷◌, ◌++◌, Any, Any-map, Comparable, contains, key_cases, length, arith,
}
use mathlib.Core.Option.{some-injective}
use metropulse.Prelude.Dict.{Dict, lookup}
use metropulse.Planner.Number.{Number, AtMost}
use metropulse.Planner.Search.{Edge, Entry, Search, reconstruct_from}
use metropulse.Planner.Search.Invariant
use metropulse.Planner.Search.Invariant.{Inv, Reached, Known}

module _ (number : Number) (State Action : Type 0) ⦃keys : Comparable State⦄
    (edges : State → number.Num → Option (List (Edge number.Num State Action)))
    (start : State) where
  open number use {Num, lt, lt_irrefl, at_most_trans}

  abbrev pub OnEdge : State → Num → State → Num → Action → Type 0
  OnEdge = Invariant.OnEdge number State Action edges start

  -- `s` can be reached at cost `c`, summed up from the start, by these actions.
  pub data Route : State → Num → List Action → Type 0 where
    stay :
        {s : State} {c : Num} {actions : List Action}
        → s ≡ start
        → c ≡ number.zero
        → actions ≡ []
        → Route s c actions
    extend :
        {s t : State} {c w : Num} {before actions : List Action} (action : Action)
        → Route s c before
        → OnEdge s c t w action
        → actions ≡ before ++ action ∷ []
        → Route t w actions

  module _ (best : Dict State Num) (prev : Dict State (State × Action))
      (origin : lookup start best ≡ some number.zero) where
    -- A route at the cost `b`, and its actions are what `_reconstruct` returns in `n` steps.
    abbrev pub Traced : ℕ → State → Num → Type 0
    Traced n s b =
        (actions : List Action) × Route s b actions
        × ((fuel : ℕ) (later : List Action)
            → n ≤ fuel
            → reconstruct_from number State Action edges start fuel prev s later
              ≡ some (actions ++ reverse later))

    trace_start :
        (n : ℕ) (s : State) (b : Num) → s ≡ start → lookup s best ≡ some b → Traced (suc n) s b
    trace_start n s b first is_b = (
      [],
      stay first (some-injective _ _ (sym is_b ∙ ap (λ (t : State). lookup t best) first ∙ origin))
          refl,
      stops,
    )
      where
        stops :
            (fuel : ℕ) (later : List Action)
            → suc n ≤ fuel
            → reconstruct_from number State Action edges start fuel prev s later
              ≡ some (reverse later)
        stops zero later h = absurd (omega arith)
        stops (suc fuel) later h = unfold reconstruct_from in rw ((keys.equal_iff s start).1 first)

    trace_parent :
        (n : ℕ) (settled : List State) (s : State) (b : Num)
        → keys.equal s start ≡ false
        → (r : Reached number State Action edges start settled best prev s b)
        → Traced n r.parent r.cost
        → Traced (suc n) s b
    trace_parent n settled s b other r (actions, route, rebuilt) =
        (actions ++ r.action ∷ [], extend r.action route r.on_edge refl, steps)
      where
        steps :
            (fuel : ℕ) (later : List Action)
            → suc n ≤ fuel
            → reconstruct_from number State Action edges start fuel prev s later
              ≡ some ((actions ++ r.action ∷ []) ++ reverse later)
        steps zero later h = absurd (omega arith)
        steps (suc fuel) later h =
            unfold reconstruct_from in
            rw (other, r.is_prev)
              (rebuilt fuel (later ++ r.action ∷ []) (omega arith)
                ∙ ap some (
                    ap (λ (t : List Action). actions ++ t) (reverse-append later (r.action ∷ []))
                    ∙ sym (append_assoc actions (r.action ∷ []) (reverse later))))

    abbrev pub Ordered : List State → Type 0
    Ordered = Invariant.Ordered number State Action edges start best prev

    TracedAll : List State → Type 0
    TracedAll settled =
        (s : State) (b : Num)
        → contains s settled ≡ true
        → lookup s best ≡ some b
        → Traced (length settled) s b

    trace_from :
        (settled : List State) (s : State) (b : Num)
        → TracedAll settled
        → lookup s best ≡ some b
        → Invariant.Explained number State Action edges start settled best prev s b
        → Traced (suc (length settled)) s b
    unfolding TracedAll
    trace_from settled s b traced is_b (inl first) = trace_start (length settled) s b first is_b
    trace_from settled s b traced is_b (inr r) = elim (key_cases s start) [
      | inl first ↦ trace_start (length settled) s b first is_b
      | inr other ↦
          trace_parent (length settled) settled s b other r
            (traced r.parent r.cost r.is_settled r.is_cost)
    ]

    longer : (n : ℕ) (s : State) (b : Num) → Traced n s b → Traced (suc n) s b
    longer n s b (actions, route, rebuilt) =
        (actions, route, λ fuel later h. rebuilt fuel later (omega arith))

    -- Every settled state is traced, in as many steps as states are settled.
    pub trace_settled :
        (settled : List State)
        → Ordered settled
        → (s : State) (b : Num) → contains s settled ≡ true
        → lookup s best ≡ some b
        → Traced (length settled) s b
    unfolding TracedAll
    trace_settled [] h s b is_in is_b = cc
    trace_settled (u ∷ older) h s b is_in is_b = elim (key_cases u s) [
      | inl same ↦ trace_from older s b (trace_settled older h.1) is_b (
          subst
            (λ (x : State). Invariant.Explained number State Action edges start older best prev x b)
            same (h.0 b (ap (λ (x : State). lookup x best) same ∙ is_b)))
      | inr other ↦ longer (length older) s b (trace_settled older h.1 s b (rw other at is_in) is_b)
    ]

    pub trace-Explained :
        (settled : List State)
        → Ordered settled
        → (s : State) (b : Num) → lookup s best ≡ some b
        → Invariant.Explained number State Action edges start settled best prev s b
        → Traced (suc (length settled)) s b
    unfolding TracedAll
    trace-Explained settled h s b = trace_from settled s b (trace_settled settled h)

  -- A higher cost at a state gives no lower cost over an edge, and no edge lowers the cost.
  pub record IsMonotone : Type 0 where
    pub grows :
        (s : State) (c : Num) (t : State) (w : Num) (a : Action)
        → OnEdge s c t w a
        → AtMost number c w
    pub mono :
        (s : State) (b c : Num) (t : State) (w : Num) (a : Action)
        → AtMost number b c
        → OnEdge s c t w a
        → (v : Num) × OnEdge s b t v a × AtMost number v w

  -- The edges out of the settled states have been relaxed.
  abbrev pub Scanned : List State → Search number State Action → Type 0
  Scanned settled st =
      (s : State) (b : Num) (t : State) (w : Num) (a : Action)
      → contains s settled ≡ true
      → lookup s st.best ≡ some b
      → OnEdge s b t w a
      → Known number State Action st t w

  abbrev pub Below : Num → Entry number State → Type 0
  Below c x = AtMost number x.0 c

  module _ (monotone : IsMonotone) (settled : List State) (level : Num)
      (st : Search number State Action) (inv : Inv number State Action edges start settled level st)
      (scanned : Scanned settled st) where
    -- Of a state that is known at `w` or less: it is settled, or the queue holds such an entry.
    Known-or_queued :
        (t : State) (w : Num)
        → Known number State Action st t w
        → (contains t settled ≡ true) × Known number State Action st t w ⊎ Any (Below w) st.queue
    Known-or_queued t w (b, is_b, low) = elim (inv.queued t b is_b) [
      | inl h ↦ inl (h, (b, is_b, low))
      | inr h ↦ inr (
          Any-map _ (Below w) (λ x p. subst (λ (n : Num). AtMost number n w) (sym p.0) low) st.queue
            h)
    ]

    -- Every route is accounted for.
    pub frontier :
        {u : State} {c : Num} {actions : List Action}
        → Route u c actions
        → (contains u settled ≡ true) × Known number State Action st u c ⊎ Any (Below c) st.queue
    frontier {u} {c} (stay first is_zero no_actions) = Known-or_queued u c (
      number.zero,
      ap (λ (s : State). lookup s st.best) first ∙ inv.origin,
      subst (λ (n : Num). AtMost number number.zero n) (sym is_zero) (lt_irrefl number.zero),
    )
    frontier {u} {c = w} (extend {s = s} {c = c} action route edge is_actions) =
        elim (frontier route) [
          | inr h ↦ inr (
              Any-map (Below c) (Below w)
                (λ x low. at_most_trans x.0 c w low (monotone.grows s c u w action edge)) st.queue
                h)
          | inl (is_in, (b, is_b, low)) ↦
              let (v, edge', cheaper) = monotone.mono s b c u w action low edge in
              let (d, is_d, under) = scanned s b u v action is_in is_b edge' in
              Known-or_queued u w (d, is_d, at_most_trans d v w under cheaper)
        ]
