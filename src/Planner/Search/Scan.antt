-- ===== src/Planner/Search/Scan.antt =====
-- The expansion of the popped state (src/metropulse/application/journey_planner.py).
use metropulse.Prelude.{
  ◌≡◌, sym, ap, subst, ◌∙◌, inl, inr, true, Option, some, List, ◌∷◌, All, All-of_each, All-at,
  Any-map, Comparable, contains, key_cases, equal_refl,
}
use mathlib.Core.Option.{some-injective}
use metropulse.Prelude.Dict.{lookup}
use metropulse.Planner.Number.{Number}
use metropulse.Planner.Search.{Edge, Search}
use metropulse.Planner.Search.Invariant.{Kept, Known}
use metropulse.Planner.Search.Expand.{Out}
use metropulse.Planner.Search.Routes.{OnEdge, IsMonotone, Scanned}

module _ (number : Number) (State Action : Type 0) ⦃keys : Comparable State⦄
    (edges : State → number.Num → Option (List (Edge number.Num State Action))) (start : State)
    (settled : List State) (s : State) (cost : number.Num)
    (out : List (Edge number.Num State Action)) (is_out : edges s cost ≡ some out) where
  open number use {Num}

  abbrev pub now : List State
  now = s ∷ settled

  pub s_settled : contains s now ≡ true
  s_settled = rw (equal_refl s)

  pub All-Out :
      IsMonotone number State Action edges start
      → All (Out number State Action edges start now cost s cost s_settled) out
  All-Out monotone = All-of_each _ out λ e place.
      let edge : OnEdge number State Action edges start s cost e.to e.cost e.action = (
        out,
        is_out,
        Any-map (λ x. e ≡ x) _
            (λ x p. (
              ap (λ (y : Edge Num State Action). y.to) (sym p),
              ap (λ (y : Edge Num State Action). y.cost) (sym p),
              ap (λ (y : Edge Num State Action). y.action) (sym p),
            ))
            out place,
      ) in
      (edge, monotone.grows s cost e.to e.cost e.action edge)

  of_out :
      (st' : Search number State Action)
      → All (λ e. Known number State Action st' e.to e.cost) out
      → (u : State) (b : Num) (t : State) (w : Num) (a : Action) → s ≡ u
      → cost ≡ b
      → OnEdge number State Action edges start u b t w a
      → Known number State Action st' t w
  of_out st' reached u b t w a same same_cost (es, is_es, place) =
      let same_edges : out ≡ es =
        some-injective _ _
          (sym is_out ∙ ap (λ (x : State). edges x cost) same ∙ ap (edges u) same_cost ∙ is_es) in
      let (e, known, (to_t, cost_w, _)) =
        All-at (λ e. Known number State Action st' e.to e.cost) _ es
          (subst (All (λ e. Known number State Action st' e.to e.cost)) same_edges reached) place in
      subst (λ (n : Num). Known number State Action st' t n) cost_w
        (subst (λ (x : State). Known number State Action st' x e.cost) to_t known)

  pub scan :
      (st st' : Search number State Action)
      → Scanned number State Action edges start settled st
      → lookup s st.best ≡ some cost
      → Kept number State Action now st st'
      → All (λ e. Known number State Action st' e.to e.cost) out
      → Scanned number State Action edges start now st'
  scan st st' scanned is_cost kept reached u b t w a is_in is_b edge =
      let before : lookup u st.best ≡ some b = sym (kept.same_best u is_in) ∙ is_b in
      elim (key_cases s u) [
        | inr other ↦ kept.still_known t w (scanned u b t w a (rw other at is_in) before edge)
        | inl same ↦
            of_out st' reached u b t w a same
              (some-injective _ _
                (sym is_cost ∙ ap (λ (x : State). lookup x st.best) same ∙ before))
              edge
      ]
