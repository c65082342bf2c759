-- ===== src/Flow/Build.antt =====
-- jina/flow/__init__.py, `build`, and jina/flow/builder.py, `_build_flow` and `_optimize_flow`.
use jina.Prelude.{
  ℕ, String, Bool, true, ◌&&◌, ◌||◌, not, Option, none, some, List, [], ◌∷◌, ◌++◌, map, leb, ltb,
  if◌then◌else◌, str_eq, Result, ok, err, ◌>>=◌, length, select,
}
use package.text.Mathlib.Text.{starts_with}
use jina.Prelude.Dict
use jina.Prelude.Dict.{Dict, contains}
use jina.Prelude.Names.{to_set}
use jina.Enums.{
  SocketType, push_connect, push_bind, pub_bind, FlowBuildLevel, graph, build_value, remove,
  collect, is_keep, is_inspect, PodRoleType, FlowOptimizeLevel, optimize_value,
}
use jina.Flow.{
  FlowError, missing_pod, build_level_error, text, Factory, FlowPod, Flow, last, get_or, update,
}
use jina.Flow.Add.{gather_inspect, inspected}
use jina.Flow.Traversal.{Outgoing, outgoing_of, append_edge, traverse_graph}

-- What `build` uses of the pods (jina/peapods/pod.py).
pub record Connector (P : Type 0) : Type 0 where
  pub connect : P → P → SocketType → Result FlowError (P × P)
  pub is_head_router : P → Bool
  pub is_tail_router : P → Bool
  pub tail_num_part : P → Result FlowError ℕ
  pub connect_to_tail_of : P → P → Result FlowError (P × P)
  pub connect_to_head_of : P → P → Result FlowError (P × P)

-- `build_required`
unfoldable pub build_required {ℓ} :
    {A : Type ℓ} → FlowBuildLevel → FlowBuildLevel → A → Result FlowError A
build_required required actual result =
    if leb (build_value required) (build_value actual) then ok result else err build_level_error

abbrev pub Edges : Type 0
Edges = List (String × String)

-- `reverse_inspect_map`: a later item of the same value wins.
reverse_from : Dict String → Dict String → Dict String
reverse_from [] m = m
reverse_from ((k, v) ∷ more) m = reverse_from more (Dict.insert v k m)

unfoldable pub reverse_inspect : Dict String → Dict String
unfolding reverse_from
reverse_inspect pods = reverse_from pods []

-- `str.endswith`
unfoldable pub ends_with : String → String → Bool
ends_with String.[] t = str_eq String.[] t
ends_with (String.◌∷◌ c s) t = str_eq (String.◌∷◌ c s) t || ends_with s t

-- The socket of `start` on its edge to `end`.
unfoldable pub first_socket_type : Outgoing → String → String → SocketType
first_socket_type m start end =
    if ltb 1 (length (outgoing_of m start))
    then pub_bind
    else if str_eq end "gateway"
    then push_bind
    else push_connect

module _ {P : Type 0} where
  -- The pods without those that inspect.
  unfoldable pub drop_inspect : Dict (FlowPod P) → Dict (FlowPod P)
  unfolding is_inspect
  drop_inspect [] = []
  drop_inspect ((k, p) ∷ nodes) =
      let rest = drop_inspect nodes in if is_inspect p.role then rest else (k, p) ∷ rest

  -- The needs of a pod once the inspected pods are replaced: by the pods behind them, or, where
  -- the inspecting pods are removed, the pods behind them by what they inspect.
  unfoldable pub rewire_needs : Flow P → FlowPod P → List String
  unfolding is_keep is_inspect inspected reverse_inspect
  rewire_needs f p =
      if is_keep f.inspect_type
      then (if is_inspect p.role
          then to_set p.needs
          else to_set (map (inspected f.inspect_pods) p.needs))
      else to_set (map (inspected (reverse_inspect f.inspect_pods)) p.needs)

  -- The loop over `pod.needs`.
  unfoldable pub link_needs :
      Dict (FlowPod P) → List String → String → Outgoing → Result FlowError Outgoing
  link_needs nodes [] end m = ok m
  link_needs nodes (start ∷ starts) end m =
      let rest = link_needs nodes starts end (append_edge start end m) in
      if contains (Dict.keys nodes) start then rest else err (missing_pod start)

  -- The loop over the pods: the pods with their new needs, and the map of the outgoing edges.
  unfoldable pub link_pods :
      Flow P → Dict (FlowPod P) → Outgoing → Result FlowError (Dict (FlowPod P) × Outgoing)
  unfolding rewire_needs link_needs
  link_pods f [] m = ok ([], m)
  link_pods f ((end, p) ∷ pods) m = do
    let needs = rewire_needs f p
    m' ← link_needs f.pod_nodes needs end m
    linked ← link_pods f pods m'
    ok ((end, record p { needs = needs }) ∷ linked.0, linked.1)

  -- `_pod_edges`
  unfoldable pub pod_edges : Dict (FlowPod P) → Edges
  pod_edges [] = []
  pod_edges ((end, p) ∷ pods) = map (λ start. (start, end)) p.needs ++ pod_edges pods

  unfoldable pub get_pod : Flow P → String → Result FlowError (FlowPod P)
  get_pod f name = elim (Dict.lookup name f.pod_nodes) [
    | none ↦ err (missing_pod name)
    | some p ↦ ok p
  ]

  -- Two pods whose connection has changed them; they are two, since `add` lets no pod need itself.
  unfoldable pub put_pods : String → String → FlowPod P → FlowPod P → P × P → Flow P → Flow P
  put_pods start end p q linked f = record f {
    pod_nodes =
        Dict.insert end (record q { pod = linked.1 })
          (Dict.insert start (record p { pod = linked.0 }) f.pod_nodes);
  }

  module _ (c : Connector P) where
    -- `_build_two_connections`
    unfoldable pub build_two_connections :
        Outgoing → String → String → Flow P → Result FlowError (Flow P)
    build_two_connections m start end f = do
      p ← get_pod f start
      q ← get_pod f end
      linked ← c.connect p.pod q.pod (first_socket_type m start end)
      ok (put_pods start end p q linked f)

    -- What the optimization does with an edge, by the pods' roles and routers.
    unfoldable pub optimize_pods :
        FlowOptimizeLevel → FlowPod P → FlowPod P → Result FlowError (P × P)
    optimize_pods level p q =
        let past_gateway =
          ltb (optimize_value FlowOptimizeLevel.ignore_gateway) (optimize_value level) in
        let keep : Result FlowError (P × P) = ok (p.pod, q.pod) in
        let drop_head : Result FlowError (P × P) =
          c.connect_to_tail_of q.pod p.pod >>= λ qp. ok (qp.1, qp.0) in
        let drop_tail : Result FlowError (P × P) = c.tail_num_part p.pod >>= λ n.
        if leb n 1 then c.connect_to_head_of p.pod q.pod else keep in
        elim p.role [
          | PodRoleType.gateway ↦ if past_gateway && c.is_head_router q.pod then drop_head else keep
          | _ ↦ elim q.role [
            | PodRoleType.gateway ↦
                if past_gateway && c.is_tail_router p.pod then drop_tail else keep
            | _ ↦
                if c.is_head_router q.pod && not (c.is_tail_router p.pod)
                then drop_head
                else if c.is_tail_router p.pod
                then drop_tail
                else keep
          ]
        ]

    -- `_optimize_two_connections`
    unfoldable pub optimize_two_connections :
        Edges → String → String → Flow P → Result FlowError (Flow P)
    optimize_two_connections edges start end f =
        if ltb 1 (length (select (λ (a, b). starts_with a start) edges))
          || ltb 1 (length (select (λ (a, b). ends_with b end) edges))
        then ok f
        else (do
          p ← get_pod f start
          q ← get_pod f end
          linked ← optimize_pods f.optimize_level p q
          ok (put_pods start end p q linked f))

    -- `_build_flow`; the fuel of the walk is enough, so that it gives a result.
    unfoldable pub build_flow : Outgoing → Flow P → Option (Result FlowError (Flow P))
    build_flow m f = traverse_graph m (build_two_connections m) f

    -- `_optimize_flow`
    unfoldable pub optimize_flow : Outgoing → Edges → Flow P → Option (Result FlowError (Flow P))
    optimize_flow m edges f =
        if ltb (optimize_value FlowOptimizeLevel.none) (optimize_value f.optimize_level)
        then traverse_graph m (optimize_two_connections edges) f
        else some (ok f)

    -- The steps after the graph is linked.
    unfoldable pub connect_flow : Outgoing → Flow P → Option (Result FlowError (Flow P))
    connect_flow m f = elim (build_flow m f) [
      | none ↦ none
      | some (err e) ↦ some (err e)
      | some (ok g) ↦ elim (optimize_flow m (pod_edges f.pod_nodes) g) [
        | none ↦ none
        | some (err e) ↦ some (err e)
        | some (ok h) ↦ some (ok (record h { build_level = graph }))
      ]
    ]

  module _ (factory : Factory P) where
    -- `_add_gateway`
    unfoldable pub add_gateway : List String → Flow P → Flow P
    unfolding update
    add_gateway needs f = record f {
      pod_nodes =
          Dict.insert "gateway"
            (record {
              needs = needs;
              role = PodRoleType.gateway;
              pod =
                  factory.gateway_pod
                    (Dict.insert "name" (text "gateway") (update f.common_kwargs []));
            })
            f.pod_nodes;
    }

    -- The head of `build`: the pods that collect, the gateway, and the removal of inspecting pods.
    unfoldable pub gather_pods : Flow P → Result FlowError (Flow P)
    gather_pods f = elim f.inspect_type [
      | collect ↦ gather_inspect factory f "gather_inspect" "_merge_eval" true []
      | _ ↦ ok f
    ]

    unfoldable pub with_gateway : Flow P → Flow P
    unfolding last
    with_gateway f =
        if contains (Dict.keys f.pod_nodes) "gateway"
        then f
        else add_gateway (get_or (last f.last_changed_pod) "" ∷ []) f

    unfoldable pub remove_inspect : Flow P → Flow P
    remove_inspect f = elim f.inspect_type [
      | remove ↦ record f { pod_nodes = drop_inspect f.pod_nodes }
      | _ ↦ f
    ]

    -- `build` up to the linked graph.
    unfoldable pub link_flow : Flow P → Result FlowError (Flow P × Outgoing)
    link_flow f = do
      g ← gather_pods f
      let h = remove_inspect (with_gateway g)
      linked ← link_pods h h.pod_nodes []
      ok (record h { pod_nodes = linked.0 }, linked.1)

  -- `build`
  unfoldable pub build : Factory P → Connector P → Flow P → Option (Result FlowError (Flow P))
  build factory c f = elim (link_flow factory f) [
    | err e ↦ some (err e)
    | ok (g, m) ↦ connect_flow c m g
  ]
