-- ===== src/Planner/Search/Expand.antt =====
-- The invariant while the edges out of a settled state are relaxed
-- (src/metropulse/application/journey_planner.py).
use metropulse.Prelude.{
  ◌+◌, ◌≤◌, ◌≡◌, refl, sym, ap, ◌∙◌, inl, inr, true, false, Option, some, List, [], ◌∷◌, Bool-cases,
  Option-cases, All, Comparable, contains, not_both, length, length-append, arith,
}
use metropulse.Prelude.Dict.{lookup}
use metropulse.Planner.Number.{Number, AtMost}
use metropulse.Planner.Search.{Edge, Search, improves, relax, relax_all}
use metropulse.Planner.Search.Invariant
use metropulse.Planner.Search.Invariant.{Inv, Known, Kept, Kept-refl, Kept-trans}
use metropulse.Planner.Search.Relax

module _ (number : Number) (State Action : Type 0) ⦃keys : Comparable State⦄
    (edges : State → number.Num → Option (List (Edge number.Num State Action)))
    (start : State) where
  open number use {Num, lt, lt_irrefl, lt_asymm, at_most_trans}

  abbrev I : List State → Num → Search number State Action → Type 0
  I = Inv number State Action edges start

  abbrev Knows : Search number State Action → State → Num → Type 0
  Knows = Known number State Action

  module _ (settled : List State) (level : Num) (from : State) (c : Num)
      (from_settled : contains from settled ≡ true) where
    -- an edge out of `from` that does not lead below the level
    abbrev pub Out : Edge Num State Action → Type 0
    Out e =
        Invariant.OnEdge number State Action edges start from c e.to e.cost e.action
        × AtMost number level e.cost

    record Relaxed (st : Search number State Action) (e : Edge Num State Action)
        (st' : Search number State Action) : Type 0 where
      inv : I settled level st'
      kept : Kept number State Action settled st st'
      reached : Knows st' e.to e.cost
      grows : length st'.queue ≤ length st.queue + 1

    known_already :
        (st : Search number State Action) (e : Edge Num State Action)
        → improves number e.cost (lookup e.to st.best) ≡ false
        → Knows st e.to e.cost
    known_already st e worse = elim (Option-cases (lookup e.to st.best)) [
      | inl unknown ↦ not_both (ap (improves number e.cost) unknown) worse
      | inr (b, is_b) ↦ (b, is_b, sym (ap (improves number e.cost) is_b) ∙ worse)
    ]

    relax_step :
        (st : Search number State Action) (e : Edge Num State Action)
        → I settled level st
        → lookup from st.best ≡ some c
        → Out e
        → Relaxed st e (relax number State Action from st e)
    relax_step st e inv from_cost out =
        elim (Bool-cases (improves number e.cost (lookup e.to st.best))) [
          | inl better ↦
              unfold relax in
              rw better (record {
                inv =
                    Relax.improved-Inv number State Action edges start settled level st inv from c e
                      from_settled from_cost out.0 out.1 better;
                kept =
                    Relax.improved-Kept number State Action edges start settled level st inv from c
                      e from_settled from_cost out.0 out.1 better;
                reached = (
                  e.cost,
                  Relax.new_best number State Action edges start settled level st inv from c e
                      from_settled from_cost out.0 out.1 better e.to refl,
                  lt_irrefl e.cost,
                );
                grows = omega (arith, length-append st.queue ((e.cost, st.counter, e.to) ∷ []));
              })
          | inr worse ↦
              unfold relax in
              rw worse (record {
                inv = inv;
                kept = Kept-refl number State Action settled st;
                reached = known_already st e worse;
                grows = omega arith;
              })
        ]

    -- what the relaxations of several edges leave behind
    pub record Expanded (st : Search number State Action) (es : List (Edge Num State Action))
        (st' : Search number State Action) : Type 0 where
      pub inv : I settled level st'
      pub kept : Kept number State Action settled st st'
      pub reached : All (λ e. Knows st' e.to e.cost) es
      pub grows : length st'.queue ≤ length st.queue + length es

    pub relax_all-Expanded :
        (st : Search number State Action) (es : List (Edge Num State Action))
        → I settled level st
        → lookup from st.best ≡ some c
        → All Out es
        → Expanded st es (relax_all number State Action from es st)
    unfolding relax_all
    relax_all-Expanded st [] inv from_cost out = record {
      inv = inv;
      kept = Kept-refl number State Action settled st;
      reached = tt;
      grows = omega arith;
    }
    relax_all-Expanded st (e ∷ es) inv from_cost out =
        let st' = relax number State Action from st e in
        let one = relax_step st e inv from_cost out.0 in
        let more =
          relax_all-Expanded st' es one.inv (one.kept.same_best from from_settled ∙ from_cost)
            out.1 in
        record {
          inv = more.inv;
          kept = Kept-trans number State Action settled st st' _ one.kept more.kept;
          reached = (more.kept.still_known e.to e.cost one.reached, more.reached);
          grows = omega (arith, one.grows, more.grows);
        }
