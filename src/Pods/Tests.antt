-- ===== src/Pods/Tests.antt =====
-- Pods made of concrete arguments, and the theorems of their wiring at them.
use jina.Prelude.{ℕ, String, ◌≡◌, refl, some, Result, ok, err}
use jina.Enums.{push_bind, paired, is_bind}
use jina.Pods.{PeaArgs, BasePod, parse_args}
use jina.Pods.Samples.{machine, ports, args_of}
use jina.Pods.Link.{
  PodError, connect, head_args, tail_args, set_head_args, set_tail_args, head_place, tail_place,
  link_args,
}
use jina.Pods.Wiring.{IsWired, HasPeas, HostsFit, connect-fits, parse_args-IsWired}

abbrev pod_of : String → ℕ → BasePod
pod_of name parallel = parse_args machine ports (args_of name parallel)

parse_args-IsWired_example : IsWired (pod_of "a" 3) × HasPeas 3 (pod_of "a" 3)
parse_args-IsWired_example = parse_args-IsWired machine ports (args_of "a" 3)

abbrev or_pods : BasePod × BasePod → Result PodError (BasePod × BasePod) → BasePod × BasePod
or_pods d (ok p) = p
or_pods d (err e) = d

abbrev connected : BasePod × BasePod
unfolding connect
connected =
    or_pods (pod_of "a" 3, pod_of "b" 1) (connect machine (pod_of "a" 3) (pod_of "b" 1) push_bind)

connected_ok :
    connect machine (pod_of "a" 3) (pod_of "b" 1) push_bind ≡ ok (connected.0, connected.1)
unfolding connected connect head_args tail_args set_head_args set_tail_args head_place tail_place
    link_args parse_args paired
connected_ok = refl

connect-fits_example :
    (t : PeaArgs) × (h : PeaArgs) × (tail_args connected.0 ≡ ok t)
    × (head_args connected.1 ≡ ok h)
    × (t.port_out ≡ h.port_in)
    × (t.socket_out ≡ push_bind)
    × (paired push_bind ≡ some h.socket_in)
    × HostsFit machine t h (is_bind push_bind)
connect-fits_example =
    connect-fits machine (pod_of "a" 3) (pod_of "b" 1) connected.0 connected.1 push_bind
      connected_ok
