-- ===== src/Flow/Tests.antt =====
-- Runs of the flow's methods over pods that are their keyword arguments, and the theorems at them.
use jina.Prelude.{
  ◌+◌, String, ◌≡◌, refl, true, false, not, ◌&&◌, some, List, [], ◌∷◌, Result, ok, err,
  if◌then◌else◌, length, map,
}
use jina.Prelude.Dict
use jina.Prelude.Dict.{contains}
use jina.Prelude.Names.{is_identifier, decimal, to_set}
use jina.Enums.{hang, FlowOptimizeLevel, pod, empty}
use jina.Flow.{FlowError, Kwargs, Factory, Flow, absent, last, init}
use jina.Flow.Add.{
  add, choose_name, parse_endpoints, put_pod, set_last_pod, inspected, endpoint_list,
}
use jina.Flow.AddLaws.{add-ok, IsValid, here, next, added, new_pod, init-Reach-IsValid}
use jina.Flow.AddCounts.{add-length}
use jina.Flow.Traversal.{Outgoing, outgoing_of, traverse_graph}
use jina.Flow.Traversal.Calls.{Edge, run}
use jina.Flow.Traversal.Visits.{ends_of, is_reached, traverse_graph-visits}
use jina.Flow.Build.{
  Connector, build, link_flow, gather_pods, with_gateway, add_gateway, remove_inspect, link_pods,
}
use jina.Flow.LinkLaws.{is_needed, link_flow-edges}
use jina.Flow.BuildLaws.{IsBuilt, build-total}

abbrev pub factory : Factory Kwargs
factory = record { flow_pod = λ k. k; gateway_pod = λ k. k }

-- Pods that every connection leaves as they are.
abbrev pub idle_connector : Connector Kwargs
idle_connector = record {
  connect = λ p q s. ok (p, q);
  is_head_router = λ p. false;
  is_tail_router = λ p. false;
  tail_num_part = λ p. ok 1;
  connect_to_tail_of = λ p q. ok (p, q);
  connect_to_head_of = λ p q. ok (p, q);
}

abbrev pub start : Flow Kwargs
unfolding init
start = init [] "log" hang FlowOptimizeLevel.none

abbrev pub or_start : Result FlowError (Flow Kwargs) → Flow Kwargs
unfolding start
or_start (ok f) = f
or_start (err e) = start

abbrev pub add_to : Flow Kwargs → String → Result FlowError (Flow Kwargs)
add_to f name = add factory f absent pod (some name) []

abbrev pub one_pod : Flow Kwargs
one_pod = or_start (add_to start "a")

abbrev pub two_pods : Flow Kwargs
two_pods = or_start (add_to one_pod "b")

runs : Flow Kwargs → List (String × List String)
runs f = map (λ (k, p). (k, p.needs)) f.pod_nodes

two_pods_run : runs two_pods ≡ ("a", "gateway" ∷ []) ∷ ("b", "a" ∷ []) ∷ []
unfolding runs add choose_name is_identifier parse_endpoints put_pod set_last_pod decimal to_set
    start Dict.insert
two_pods_run = refl

one_pod_ok : add_to start "a" ≡ ok one_pod
unfolding add choose_name is_identifier parse_endpoints put_pod set_last_pod decimal to_set start
    Dict.insert
one_pod_ok = refl

two_pods_ok : add_to one_pod "b" ≡ ok two_pods
unfolding add choose_name is_identifier parse_endpoints put_pod set_last_pod decimal to_set start
    Dict.insert
two_pods_ok = refl

add-ok_example :
    let n = choose_name one_pod (some "b") in
    let given = endpoint_list one_pod absent true in
    let starts = to_set (map (inspected one_pod.inspect_pods) given) in
    (is_identifier n ≡ true)
    × (contains given n ≡ false)
    × (two_pods.pod_nodes
        ≡ Dict.insert n (new_pod factory one_pod n starts pod []) one_pod.pod_nodes)
    × (last two_pods.last_changed_pod ≡ some n)
    × (two_pods.inspect_pods ≡ one_pod.inspect_pods)
    × (two_pods.build_level ≡ empty)
add-ok_example = add-ok factory one_pod two_pods absent pod (some "b") [] two_pods_ok

init-Reach-IsValid_example : IsValid two_pods
unfolding add init start
init-Reach-IsValid_example = init-Reach-IsValid factory [] "log" hang FlowOptimizeLevel.none (
    next (next here (added absent pod (some "a") [] one_pod_ok))
      (added absent pod (some "b") [] two_pods_ok))

add-length_example : length two_pods.pod_nodes ≡ (
    if contains (Dict.keys one_pod.pod_nodes) (choose_name one_pod (some "b"))
    then length one_pod.pod_nodes
    else length one_pod.pod_nodes + 1)
add-length_example = add-length factory one_pod two_pods absent pod (some "b") [] two_pods_ok

-- The gateway feeds two pods that are joined.
abbrev diamond : Outgoing
diamond = ("gateway", "a" ∷ "b" ∷ []) ∷ ("a", "c" ∷ []) ∷ ("b", "c" ∷ []) ∷ []

abbrev note_edge : String → String → List Edge → Result FlowError (List Edge)
note_edge a b s = ok ((a, b) ∷ s)

traverse_graph-visits_example :
    (es : List Edge) × (traverse_graph diamond note_edge [] ≡ some (run note_edge es []))
    × ((k : String) → ends_of k es ≡ (if is_reached es k then outgoing_of diamond k else []))
traverse_graph-visits_example = traverse_graph-visits diamond note_edge []

build-total_example :
    (r : Result FlowError (Flow Kwargs)) × (build factory idle_connector two_pods ≡ some r)
    × IsBuilt r
build-total_example = build-total idle_connector factory two_pods

abbrev linked : Result FlowError (Flow Kwargs × Outgoing)
linked = link_flow factory two_pods

abbrev or_none : Result FlowError (Flow Kwargs × Outgoing) → Flow Kwargs × Outgoing
or_none (ok p) = p
or_none (err e) = (start, [])

linked_ok : linked ≡ ok (or_none linked)
unfolding add choose_name is_identifier parse_endpoints put_pod set_last_pod decimal to_set start
    Dict.insert link_flow gather_pods with_gateway add_gateway remove_inspect link_pods
linked_ok = refl

link_flow-edges_example :
    (contains (outgoing_of (or_none linked).1 "a") "b"
      ≡ is_needed (or_none linked).0.pod_nodes "a" "b")
    × ((is_needed (or_none linked).0.pod_nodes "a" "b"
          && not (contains (Dict.keys (or_none linked).0.pod_nodes) "a"))
        ≡ false)
link_flow-edges_example =
    link_flow-edges factory two_pods (or_none linked).0 (or_none linked).1 "a" "b" linked_ok
