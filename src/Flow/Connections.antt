-- ===== src/Flow/Connections.antt =====
-- The flow over real pods: `build` connects them by `FlowPod.connect` (jina/peapods/pod.py).
use jina.Prelude.{
  String, ◌≡◌, ◌≢◌, some, Result, ok, err, ◌>>=◌, arith, Result-cases, inl, inr, eq_iff,
}
use jina.Prelude.Dict
use jina.Prelude.Dict.{lookup-insert}
use jina.Enums.{paired, is_bind}
use jina.Pods.{PeaArgs, Random, Machine, BasePod}
use jina.Pods.Link.{PodError, connect, head_args, tail_args, connect_to_tail_of, connect_to_head_of}
use jina.Pods.Wiring.{HostsFit, connect-fits}
use jina.Flow.{FlowError, pod_error, FlowPod, Flow}
use jina.Flow.Traversal.{Outgoing}
use jina.Flow.Build.{Connector, build_two_connections, first_socket_type, get_pod, put_pods}

-- An exception of the pods is one of the flow.
abbrev pub lift {ℓ} : {A : Type ℓ} → Result PodError A → Result FlowError A
lift (ok a) = ok a
lift (err e) = err pod_error

-- The pods of jina/peapods/pod.py as `build` uses them.
unfoldable pub pod_connector : Machine → Random → Connector BasePod
pod_connector m r = record {
  connect = λ p q s. lift (connect m p q s);
  is_head_router = λ p. p.is_head_router;
  is_tail_router = λ p. p.is_tail_router;
  tail_num_part = λ p. lift (tail_args p) >>= λ a. ok a.num_part;
  connect_to_tail_of = λ p q. lift (connect_to_tail_of m r p q);
  connect_to_head_of = λ p q. lift (connect_to_head_of m r p q);
}

lift-ok {ℓ} : {A : Type ℓ} (x : Result PodError A) (a : A) → lift x ≡ ok a → x ≡ ok a
lift-ok (ok b) a h = ground arith
lift-ok (err e) a h = cc

-- After `_build_two_connections` on an edge between two different pods, the tail of `start` sends
-- to the head of `end`: the ports are the same, the sockets are the two ends of the link that the
-- number of the edges of `start` asks for, and the hosts fit.
pub build_two_connections-fits :
    (m : Machine) (r : Random) (out : Outgoing) (start end : String) (f g : Flow BasePod)
    → start ≢ end
    → build_two_connections (pod_connector m r) out start end f ≡ ok g
    → (p : FlowPod BasePod) × (q : FlowPod BasePod) × (t : PeaArgs) × (h : PeaArgs) × (Dict.lookup
          start g.pod_nodes
        ≡ some p)
      × (Dict.lookup end g.pod_nodes ≡ some q)
      × (tail_args p.pod ≡ ok t)
      × (head_args q.pod ≡ ok h)
      × (t.port_out ≡ h.port_in)
      × (t.socket_out ≡ first_socket_type out start end)
      × (paired t.socket_out ≡ some h.socket_in)
      × HostsFit m t h (is_bind t.socket_out)
unfolding build_two_connections pod_connector put_pods
build_two_connections-fits m r out start end f g ne e = elim (Result-cases (get_pod f start)) [
  | inr (_, bad) ↦ absurd (ground arith)
  | inl (p, e₁) ↦ elim (Result-cases (get_pod f end)) [
    | inr (_, bad) ↦ absurd (ground arith)
    | inl (q, e₂) ↦
        let type = first_socket_type out start end in
        elim (Result-cases (connect m p.pod q.pod type)) [
          | inr (_, bad) ↦ absurd (ground arith)
          | inl ((p', q'), e₃) ↦
              let (t, h, e₄, e₅, ports, s, pair, hosts) =
                connect-fits m p.pod q.pod p' q' type e₃ in
              let p₁ : FlowPod BasePod = record p { pod = p' } in
              let q₁ : FlowPod BasePod = record q { pod = q' } in
              let nodes = Dict.insert start p₁ f.pod_nodes in
              let eg : put_pods start end p q (p', q') f ≡ g = ground arith in
              (
                p₁,
                q₁,
                t,
                h,
                rw (← eg) (
                    ground (
                      arith,
                      lookup-insert end start q₁ nodes,
                      lookup-insert start start p₁ f.pod_nodes,
                      eq_iff end start,
                      eq_iff start start,
                    )),
                rw (← eg) (ground (arith, lookup-insert end end q₁ nodes, eq_iff end end)),
                e₄,
                e₅,
                ports,
                s,
                rw s pair,
                rw s hosts,
              )
        ]
  ]
]
