-- ===== src/Planner/Search/Relax.antt =====
-- `_relax` keeps the invariant (src/metropulse/application/journey_planner.py).
use metropulse.Prelude.{
  ◌+◌, ◌||◌, ◌≡◌, refl, sym, ap, subst, ◌∙◌, ◌⊎◌, inl, inr, Bool, true, false, Option, some, List,
  [], ◌∷◌, ◌++◌, Bool-cases, All, All-map, All-append, Any, Any-append_left, Any-append_right,
  Comparable, contains, key_cases, equal_refl, not_both,
}
use mathlib.Core.Option.{some-injective}
use metropulse.Prelude.Dict.{Dict, lookup, insert, lookup-insert}
use metropulse.Planner.Number.{Number, AtMost, lt-of_lt_at_most}
use metropulse.Planner.Search.{Edge, Entry, Search, improves}
use metropulse.Planner.Search.Queue.{Apart}
use metropulse.Planner.Search.Invariant
use metropulse.Planner.Search.Invariant.{Inv, Reached, Kept}

module _ (number : Number) (State Action : Type 0) ⦃keys : Comparable State⦄
    (edges : State → number.Num → Option (List (Edge number.Num State Action)))
    (start : State) where
  open number use {Num, lt, lt_irrefl, lt_asymm, at_most_trans}

  abbrev pub In : State → List State → Type 0
  In = Invariant.In number State Action edges start

  abbrev pub I : List State → Num → Search number State Action → Type 0
  I = Inv number State Action edges start

  abbrev pub Current : Dict State Num → Num → Entry number State → Type 0
  Current = Invariant.Current number State Action edges start

  abbrev pub OutOfDate : List State → Dict State Num → Entry number State → Type 0
  OutOfDate = Invariant.OutOfDate number State Action edges start

  abbrev pub Explained :
      List State → Dict State Num → Dict State (State × Action) → State → Num → Type 0
  Explained = Invariant.Explained number State Action edges start

  abbrev pub IsEntryOf : State → Num → Entry number State → Type 0
  IsEntryOf = Invariant.IsEntryOf number State Action edges start

  -- The relaxation of an edge that improves its state.
  module _ (settled : List State) (level : Num) (st : Search number State Action)
      (inv : I settled level st) (from : State) (c : Num) (e : Edge Num State Action)
      (from_settled : In from settled) (from_cost : lookup from st.best ≡ some c)
      (on_edge : Invariant.OnEdge number State Action edges start from c e.to e.cost e.action)
      (above : AtMost number level e.cost)
      (better : improves number e.cost (lookup e.to st.best) ≡ true) where
    abbrev pub best' : Dict State Num
    best' = insert e.to e.cost st.best

    abbrev pub prev' : Dict State (State × Action)
    prev' = insert e.to (from, e.action) st.prev

    abbrev pub entry : Entry number State
    entry = (e.cost, st.counter, e.to)

    pub better_than : (b : Num) → lookup e.to st.best ≡ some b → lt e.cost b ≡ true
    better_than b h = sym (ap (improves number e.cost) h) ∙ better

    -- a settled state cannot be improved
    unsettled : contains e.to settled ≡ false
    unsettled = elim (Bool-cases (contains e.to settled)) [
      | inr h ↦ h
      | inl h ↦
          let (b, is_b, low) = inv.settled_low e.to h in
          not_both (better_than b is_b) (at_most_trans b level e.cost low above)
    ]

    pub settled_ne : (u : State) → In u settled → keys.equal e.to u ≡ false
    settled_ne u h = elim (key_cases e.to u) [
      | inl same ↦ not_both (subst (λ (s : State). In s settled) (sym same) h) unsettled
      | inr other ↦ other
    ]

    pub old_best : (u : State) → keys.equal e.to u ≡ false → lookup u best' ≡ lookup u st.best
    old_best u h = lookup-insert e.to u e.cost st.best ∙ rw h

    old_prev : (u : State) → keys.equal e.to u ≡ false → lookup u prev' ≡ lookup u st.prev
    old_prev u h = lookup-insert e.to u (from, e.action) st.prev ∙ rw h

    pub new_best : (u : State) → e.to ≡ u → lookup u best' ≡ some e.cost
    new_best u h = lookup-insert e.to u e.cost st.best ∙ rw ((keys.equal_iff e.to u).1 h)

    new_prev : (u : State) → e.to ≡ u → lookup u prev' ≡ some (from, e.action)
    new_prev u h = lookup-insert e.to u (from, e.action) st.prev ∙ rw ((keys.equal_iff e.to u).1 h)

    -- of an entry for the improved state
    below_entry :
        (x : Entry number State) → e.to ≡ x.2 → Current st.best level x → lt e.cost x.0 ≡ true
    below_entry x same (_, (b, is_b, inl eq)) =
        subst (λ (n : Num). lt e.cost n ≡ true) eq
          (better_than b (ap (λ (s : State). lookup s st.best) same ∙ is_b))
    below_entry x same (_, (b, is_b, inr less)) =
        lt-of_lt_at_most number e.cost b x.0
          (better_than b (ap (λ (s : State). lookup s st.best) same ∙ is_b)) (lt_asymm b x.0 less)

    Current-old : (x : Entry number State) → Current st.best level x → Current best' level x
    Current-old x h = elim (key_cases e.to x.2) [
      | inl same ↦ (h.0, (e.cost, new_best x.2 same, inr (below_entry x same h)))
      | inr other ↦ (h.0, (h.1.0, old_best x.2 other ∙ h.1.1, h.1.2))
    ]

    stale_old : (x : Entry number State) → OutOfDate settled st.best x → OutOfDate settled best' x
    stale_old x h s b is_b = h s b (sym (old_best x.2 (settled_ne x.2 s)) ∙ is_b)

    Apart-new :
        (xs : List (Entry number State))
        → All (Current st.best level) xs
        → Apart number State xs
        → Apart number State (xs ++ entry ∷ [])
    Apart-new [] h k = (tt, tt)
    Apart-new (x ∷ xs) h k = (
      All-append _ xs (entry ∷ []) k.0 ((λ same. inr (below_entry x (sym same) h.0)), tt),
      Apart-new xs h.1 k.1,
    )

    Explained-old :
        (older : List State) (u : State) (b : Num)
        → ((p : State) → In p older → In p settled)
        → keys.equal e.to u ≡ false
        → Explained older st.best st.prev u b
        → Explained older best' prev' u b
    Explained-old older u b sub other (inl first) = inl first
    Explained-old older u b sub other (inr r) = inr (record {
      parent = r.parent;
      action = r.action;
      cost = r.cost;
      is_prev = old_prev u other ∙ r.is_prev;
      is_settled = r.is_settled;
      is_cost = old_best r.parent (settled_ne r.parent (sub r.parent r.is_settled)) ∙ r.is_cost;
      on_edge = r.on_edge;
    })

    Ordered-old :
        (older : List State)
        → ((p : State) → In p older → In p settled)
        → Invariant.Ordered number State Action edges start st.best st.prev older
        → Invariant.Ordered number State Action edges start best' prev' older
    Ordered-old [] sub h = tt
    Ordered-old (u ∷ older) sub h =
        let other : keys.equal e.to u ≡ false = settled_ne u (sub u (rw (equal_refl u))) in
        let sub' : (p : State) → In p older → In p settled = λ p k. sub p (in_tail u p older k) in
        (
          (λ b is_b. Explained-old older u b sub' other (h.0 b (sym (old_best u other) ∙ is_b))),
          Ordered-old older sub' h.1,
        )
      where
        in_tail : (u p : State) (older : List State) → In p older → In p (u ∷ older)
        in_tail u p older k = or_right (keys.equal u p) (contains p older) k
          where
            or_right : (x y : Bool) → y ≡ true → (x || y) ≡ true
            or_right true y k = refl
            or_right false y k = k

    Explained-new :
        (u : State) (b : Num)
        → lookup u best' ≡ some b
        → contains u settled ≡ false
        → Explained settled best' prev' u b
    Explained-new u b is_b open_u = elim (key_cases e.to u) [
      | inl same ↦ inr (record {
        parent = from;
        action = e.action;
        cost = c;
        is_prev = new_prev u same;
        is_settled = from_settled;
        is_cost = old_best from (settled_ne from from_settled) ∙ from_cost;
        on_edge =
            subst
              (λ (n : Num). Invariant.OnEdge number State Action edges start from c u n e.action)
              (some-injective _ _ (sym (new_best u same) ∙ is_b))
              (subst
                (λ (s : State).
                  Invariant.OnEdge number State Action edges start from c s e.cost e.action)
                same on_edge);
      })
      | inr other ↦
          Explained-old settled u b (λ p k. k) other
            (inv.explained u b (sym (old_best u other) ∙ is_b) open_u)
    ]

    queued_new :
        (u : State) (b : Num)
        → lookup u best' ≡ some b
        → In u settled ⊎ Any (IsEntryOf u b) (st.queue ++ entry ∷ [])
    queued_new u b is_b = elim (key_cases e.to u) [
      | inl same ↦ inr (
          Any-append_right (IsEntryOf u b) st.queue (entry ∷ [])
            (inl (some-injective _ _ (sym (new_best u same) ∙ is_b), same)))
      | inr other ↦ elim (inv.queued u b (sym (old_best u other) ∙ is_b)) [
        | inl h ↦ inl h
        | inr h ↦ inr (Any-append_left (IsEntryOf u b) st.queue (entry ∷ []) h)
      ]
    ]

    origin_ne : keys.equal e.to start ≡ false
    origin_ne = elim (key_cases e.to start) [
      | inr other ↦ other
      | inl same ↦
          not_both
            (better_than number.zero (ap (λ (s : State). lookup s st.best) same ∙ inv.origin))
            (at_most_trans number.zero level e.cost inv.level_pos above)
    ]

    abbrev pub improved : Search number State Action
    improved = record {
      best = best';
      prev = prev';
      queue = st.queue ++ entry ∷ [];
      counter = st.counter + 1;
    }

    pub improved-Inv : I settled level improved
    improved-Inv = record {
      origin = old_best start origin_ne ∙ inv.origin;
      level_pos = inv.level_pos;
      settled_low = λ u h.
          let (b, is_b, low) = inv.settled_low u h in (b, old_best u (settled_ne u h) ∙ is_b, low);
      queue_current =
          All-append _ st.queue (entry ∷ [])
            (All-map (Current st.best level) (Current best' level) Current-old st.queue
              inv.queue_current)
            ((above, (e.cost, new_best e.to refl, inl refl)), tt);
      queue_stale =
          All-append _ st.queue (entry ∷ [])
            (All-map (OutOfDate settled st.best) (OutOfDate settled best') stale_old st.queue
              inv.queue_stale)
            ((λ h. not_both h unsettled), tt);
      queue_apart = Apart-new st.queue inv.queue_current inv.queue_apart;
      queued = queued_new;
      explained = Explained-new;
      ordered = Ordered-old settled (λ p k. k) inv.ordered;
    }

    pub improved-Kept : Kept number State Action settled st improved
    improved-Kept = record {
      same_best = λ u h. old_best u (settled_ne u h);
      still_known = λ t w (b, is_b, low). elim (key_cases e.to t) [
        | inl same ↦ (
          e.cost,
          new_best t same,
          at_most_trans e.cost b w
              (lt_asymm e.cost b (better_than b (ap (λ (s : State). lookup s st.best) same ∙ is_b)))
              low,
        )
        | inr other ↦ (b, old_best t other ∙ is_b, low)
      ];
    }
