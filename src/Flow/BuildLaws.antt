-- ===== src/Flow/BuildLaws.antt =====
-- `build` gives a result for every flow, and what it leaves.
use jina.Prelude.{
  String, ◌≡◌, refl, some, List, [], if◌then◌else◌, Result, ok, err, arith, Result-cases,
  Bool-cases, inl, inr, ltb,
}
use jina.Enums.{graph, optimize_value, FlowOptimizeLevel}
use jina.Flow.{FlowError, Factory, Flow}
use jina.Flow.Traversal.{Outgoing, outgoing_of}
use jina.Flow.Traversal.Calls.{Edge, run}
use jina.Flow.Traversal.Visits.{ends_of, is_reached, traverse_graph-visits}
use jina.Flow.Build.{
  Connector, build_two_connections, optimize_two_connections, build_flow, optimize_flow,
  connect_flow, link_flow, build, pod_edges,
}

-- A built flow is at the level GRAPH; an exception says nothing.
abbrev pub IsBuilt : {P : Type 0} → Result FlowError (Flow P) → Type 0
IsBuilt (ok g) = g.build_level ≡ graph
IsBuilt (err e) = Unit

module _ {P : Type 0} (c : Connector P) where
  -- `_build_flow` connects, in the order of the walk, exactly the edges of the reached pods.
  build_flow-connects :
      (m : Outgoing) (f : Flow P)
      → (es : List Edge) × (build_flow c m f ≡ some (run (build_two_connections c m) es f))
        × ((k : String) → ends_of k es ≡ (if is_reached es k then outgoing_of m k else []))
  unfolding build_flow
  build_flow-connects m f = traverse_graph-visits m (build_two_connections c m) f

  optimize_flow-total :
      (m : Outgoing) (f g : Flow P)
      → (r : Result FlowError (Flow P)) × (optimize_flow c m (pod_edges f.pod_nodes) g ≡ some r)
  unfolding optimize_flow
  optimize_flow-total m f g =
      elim (Bool-cases
        (ltb (optimize_value FlowOptimizeLevel.none) (optimize_value g.optimize_level))) [
          | inl some_level ↦
              let edges = pod_edges f.pod_nodes in
              let (es, p, _) = traverse_graph-visits m (optimize_two_connections c edges) g in
              (run (optimize_two_connections c edges) es g, rw some_level p)
          | inr no_level ↦ (ok g, rw no_level)
        ]

  connect_flow-total :
      (m : Outgoing) (f : Flow P)
      → (r : Result FlowError (Flow P)) × (connect_flow c m f ≡ some r) × IsBuilt r
  unfolding connect_flow
  connect_flow-total m f =
      let (es, p, _) = build_flow-connects m f in
      elim (Result-cases (run (build_two_connections c m) es f)) [
        | inr (e, raised) ↦ (err e, ground arith, tt)
        | inl (g, connected) ↦
            let (r, q) = optimize_flow-total m f g in
            elim (Result-cases r) [
              | inr (e, raised) ↦ (err e, ground arith, tt)
              | inl (h, optimized) ↦ (ok (record h { build_level = graph }), ground arith, refl)
            ]
      ]

  -- `build` ends with a flow or an exception; a flow that it gives is at the level GRAPH.
  pub build-total :
      (factory : Factory P) (f : Flow P)
      → (r : Result FlowError (Flow P)) × (build factory c f ≡ some r) × IsBuilt r
  unfolding build
  build-total factory f = elim (Result-cases (link_flow factory f)) [
    | inr (e, raised) ↦ (err e, ground arith, tt)
    | inl ((g, m), linked) ↦ let (r, p, b) = connect_flow-total m g in (r, ground arith, b)
  ]
