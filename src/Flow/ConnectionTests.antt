-- ===== src/Flow/ConnectionTests.antt =====
-- A flow of two real pods, one of them parallel, that is connected.
use jina.Prelude.{String, ◌≡◌, ◌≢◌, refl, some, List, [], ◌∷◌, Result, ok, err, arith, eq_iff, ℕ}
use jina.Prelude.Dict
use jina.Enums.{paired, is_bind, pod, hang, FlowOptimizeLevel}
use jina.Pods.{PeaArgs, BasePod, parse_args}
use jina.Pods.Samples.{machine, ports, args_of}
use jina.Pods.Link.{
  connect, head_args, tail_args, set_head_args, set_tail_args, head_place, tail_place, link_args,
}
use jina.Pods.Wiring.{HostsFit}
use jina.Flow.{FlowError, FlowPod, Flow, init}
use jina.Flow.Traversal.{Outgoing, outgoing_of}
use jina.Flow.Build.{build_two_connections, first_socket_type, get_pod, put_pods}
use jina.Flow.Connections.{pod_connector, build_two_connections-fits}

abbrev pod_of : String → ℕ → List String → FlowPod BasePod
pod_of name parallel needs = record {
  needs = needs;
  role = pod;
  pod = parse_args machine ports (args_of name parallel);
}

abbrev two_pods : Flow BasePod
unfolding init
two_pods = record (init [] "log" hang FlowOptimizeLevel.none) {
  pod_nodes = ("a", pod_of "a" 3 []) ∷ ("b", pod_of "b" 1 ("a" ∷ [])) ∷ [];
}

abbrev edges : Outgoing
edges = ("a", "b" ∷ []) ∷ []

abbrev or_two_pods : Result FlowError (Flow BasePod) → Flow BasePod
unfolding two_pods
or_two_pods (ok f) = f
or_two_pods (err e) = two_pods

abbrev connected : Flow BasePod
connected = or_two_pods (build_two_connections (pod_connector machine ports) edges "a" "b" two_pods)

connected_ok :
    build_two_connections (pod_connector machine ports) edges "a" "b" two_pods ≡ ok connected
unfolding two_pods build_two_connections pod_connector put_pods get_pod first_socket_type
    outgoing_of connect head_args tail_args set_head_args set_tail_args head_place tail_place
    link_args parse_args paired Dict.lookup Dict.insert
connected_ok = refl

a_is_not_b : ◌≢◌ {A = String} "a" "b"
a_is_not_b = λ e. ground (arith, (eq_iff "a" "b").1 e)

build_two_connections-fits_example :
    (p : FlowPod BasePod) × (q : FlowPod BasePod) × (t : PeaArgs) × (h : PeaArgs) × (Dict.lookup "a"
        connected.pod_nodes
      ≡ some p)
    × (Dict.lookup "b" connected.pod_nodes ≡ some q)
    × (tail_args p.pod ≡ ok t)
    × (head_args q.pod ≡ ok h)
    × (t.port_out ≡ h.port_in)
    × (t.socket_out ≡ first_socket_type edges "a" "b")
    × (paired t.socket_out ≡ some h.socket_in)
    × HostsFit machine t h (is_bind t.socket_out)
build_two_connections-fits_example =
    build_two_connections-fits machine ports edges "a" "b" two_pods connected a_is_not_b
      connected_ok
