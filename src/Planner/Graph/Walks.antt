-- ===== src/Planner/Graph/Walks.antt =====
-- The walks of the network (`_build_walk_edges` of
-- src/metropulse/application/journey_planner.py).
use metropulse.Prelude.{
  String, ◌≡◌, refl, sym, ap, subst, inl, inr, Option, List, [], ◌∷◌, Bool-cases, comparable_string,
}
use metropulse.Prelude.Dict.{Dict}
use metropulse.Planner.Number.{Number}
use metropulse.Planner.Network.{WalkEdge, PlannerParameters}
use metropulse.Planner.Graph.{
  Maths, Stop, Timetable, add_walk, append_at, build_graph, build_walk_edges, is_walk, walk_edge,
  walks_from,
}
use metropulse.Planner.Graph.Listed.{Listed, Listed-kept, Listed-new, Listed-old}

module _ {Num : Type 0} where
  -- the same walk the other way
  abbrev pub back : String → WalkEdge Num → WalkEdge Num
  back from edge = record edge { to_stop_id = from }

  -- Every walk can be walked back, over the same distance and in the same time.
  abbrev pub IsSymmetric : Dict String (List (WalkEdge Num)) → Type 0
  IsSymmetric edges =
      (from : String) (edge : WalkEdge Num)
      → Listed edges from edge
      → Listed edges edge.to_stop_id (back from edge)

  append_both-IsSymmetric :
      (a b : String) (edge : WalkEdge Num) (edges : Dict String (List (WalkEdge Num)))
      → edge.to_stop_id ≡ b
      → IsSymmetric edges
      → IsSymmetric (append_at b (back a edge) (append_at a edge edges))
  append_both-IsSymmetric a b edge edges is_b h from e found =
      let both = append_at b (back a edge) (append_at a edge edges) in
      elim (Listed-old b from (back a edge) e (append_at a edge edges) found) [
        | inr (is_from, is_e) ↦
            subst (λ (x : WalkEdge Num). Listed both x.to_stop_id (back from x)) is_e
              (subst (λ (f : String). Listed both a (back f (back a edge))) is_from
                (subst (Listed both a) (ap (λ (t : String). back t edge) is_b) (
                  Listed-kept b a (back a edge) edge (append_at a edge edges)
                    (Listed-new a edge edges))))
        | inl k ↦ elim (Listed-old a from edge e edges k) [
          | inr (is_from, is_e) ↦
              subst (λ (x : WalkEdge Num). Listed both x.to_stop_id (back from x)) is_e
                (subst (λ (f : String). Listed both edge.to_stop_id (back f edge)) is_from
                  (subst (λ (t : String). Listed both t (back a edge)) (sym is_b)
                    (Listed-new b (back a edge) (append_at a edge edges))))
          | inl old ↦
              Listed-kept b e.to_stop_id (back a edge) (back from e) (append_at a edge edges)
                (Listed-kept a e.to_stop_id edge (back from e) edges (h from e old))
        ]
      ]

module _ (number : Number) (maths : Maths number.Num) (params : PlannerParameters number.Num) where
  open number use {Num}

  add_walk-IsSymmetric :
      (a b : Stop Num) (edges : Dict String (List (WalkEdge Num)))
      → IsSymmetric edges
      → IsSymmetric (add_walk number maths params a b edges)
  unfolding add_walk walk_edge
  add_walk-IsSymmetric a b edges h = elim (Bool-cases (is_walk number maths params a b)) [
    | inl e ↦ rw e (
        append_both-IsSymmetric a.stop_id b.stop_id (walk_edge number maths params a b b) edges refl
          h)
    | inr e ↦ rw e h
  ]

  walks_from-IsSymmetric :
      (a : Stop Num) (stops : List (Stop Num)) (edges : Dict String (List (WalkEdge Num)))
      → IsSymmetric edges
      → IsSymmetric (walks_from number maths params a stops edges)
  unfolding walks_from
  walks_from-IsSymmetric a [] edges h = h
  walks_from-IsSymmetric a (b ∷ stops) edges h =
      walks_from-IsSymmetric a stops _ (add_walk-IsSymmetric a b edges h)

  build_walk_edges-IsSymmetric :
      (stops : List (Stop Num)) (edges : Dict String (List (WalkEdge Num)))
      → IsSymmetric edges
      → IsSymmetric (build_walk_edges number maths params stops edges)
  unfolding build_walk_edges
  build_walk_edges-IsSymmetric [] edges h = h
  build_walk_edges-IsSymmetric (a ∷ stops) edges h =
      build_walk_edges-IsSymmetric stops _ (walks_from-IsSymmetric a stops edges h)

  -- In the graph that is built from any timetable, every walk can be walked back, over the same
  -- distance and in the same time.
  pub build_graph-IsSymmetric :
      (version : Option String) (table : Timetable Num)
      → IsSymmetric (build_graph number maths params version table).walk_edges
  unfolding build_graph
  build_graph-IsSymmetric version table =
      build_walk_edges-IsSymmetric table.stops [] (λ from edge (xs, none_is, _). cc)
