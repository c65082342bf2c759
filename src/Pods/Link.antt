-- ===== src/Pods/Link.antt =====
-- jina/peapods/pod.py: `head_args`, `tail_args` and `FlowPod`'s methods that connect two pods.
use jina.Prelude.{
  Bool, true, false, ◌&&◌, not, Option, none, some, List, [], ◌∷◌, ltb, ◌==◌, if◌then◌else◌, Result,
  ok, err, ◌>>=◌, length,
}
use jina.Enums.{SocketType, push_bind, push_connect, pub_bind, paired, is_push}
use jina.Pods.{
  PeaArgs, Random, Machine, default_host, fill_in_host, copy_to_head_args, copy_to_tail_args,
  set_peas_args, BasePod,
}

-- The `ValueError` of an ambiguous head or tail, the `ValueError` of a pod that has no router to
-- remove, and the `NotImplementedError` or `KeyError` of a socket that cannot start a connection.
pub data PodError : Type 0 where
  ambiguous_head ambiguous_tail no_head_router no_tail_router unsupported_socket : PodError

abbrev or_raise {ℓ} : {A : Type ℓ} → Option A → PodError → Result PodError A
or_raise none e = err e
or_raise (some a) e = ok a

abbrev first : List PeaArgs → Option PeaArgs
first [] = none
first (a ∷ peas) = some a

abbrev set_first : PeaArgs → List PeaArgs → List PeaArgs
set_first a [] = []
set_first a (b ∷ peas) = a ∷ peas

abbrev is_some {ℓ} : {A : Type ℓ} → Option A → Bool
is_some none = false
is_some (some a) = true

-- Where a pod keeps its head or its tail.
pub data Place : Type 0 where
  router single deducted ambiguous : Place

-- The tests that the four properties below share.
place : Bool → Option PeaArgs → List PeaArgs → Option PeaArgs → Place
place is_router pea peas deducted_args =
    if is_router && is_some pea
    then router
    else if not is_router && (length peas == 1)
    then single
    else if is_some deducted_args
    then deducted
    else ambiguous

unfoldable pub head_place : BasePod → Place
unfolding place
head_place p = place p.is_head_router p.head_pea p.peas p.deducted_head

unfoldable pub tail_place : BasePod → Place
unfolding place
tail_place p = place p.is_tail_router p.tail_pea p.peas p.deducted_tail

-- `head_args`
unfoldable pub head_args : BasePod → Result PodError PeaArgs
unfolding head_place
head_args p = elim (head_place p) [
  | router ↦ or_raise p.head_pea ambiguous_head
  | single ↦ or_raise (first p.peas) ambiguous_head
  | deducted ↦ or_raise p.deducted_head ambiguous_head
  | ambiguous ↦ err ambiguous_head
]

-- The setter of `head_args`
unfoldable pub set_head_args : PeaArgs → BasePod → Result PodError BasePod
unfolding head_place
set_head_args a p = elim (head_place p) [
  | router ↦ ok (record p { head_pea = some a })
  | single ↦ ok (record p { peas = set_first a p.peas })
  | deducted ↦ ok (record p { deducted_head = some a })
  | ambiguous ↦ err ambiguous_head
]

-- `tail_args`
unfoldable pub tail_args : BasePod → Result PodError PeaArgs
unfolding tail_place
tail_args p = elim (tail_place p) [
  | router ↦ or_raise p.tail_pea ambiguous_tail
  | single ↦ or_raise (first p.peas) ambiguous_tail
  | deducted ↦ or_raise p.deducted_tail ambiguous_tail
  | ambiguous ↦ err ambiguous_tail
]

-- The setter of `tail_args`
unfoldable pub set_tail_args : PeaArgs → BasePod → Result PodError BasePod
unfolding tail_place
set_tail_args a p = elim (tail_place p) [
  | router ↦ ok (record p { tail_pea = some a })
  | single ↦ ok (record p { peas = set_first a p.peas })
  | deducted ↦ ok (record p { deducted_tail = some a })
  | ambiguous ↦ err ambiguous_tail
]

-- The hosts and ports of `connect`, once the sockets are set.
unfoldable pub link_hosts :
    Machine → SocketType → PeaArgs → PeaArgs → Result PodError (PeaArgs × PeaArgs)
link_hosts m push_bind t h = ok (
  record t { host_out = default_host },
  record h { host_in = fill_in_host m t h; port_in = t.port_out },
)
link_hosts m push_connect t h = ok (
  record t { host_out = fill_in_host m h t; port_out = h.port_in },
  record h { host_in = default_host },
)
link_hosts m pub_bind t h = ok (
  record t { host_out = default_host },
  record h { host_in = fill_in_host m t h; port_in = t.port_out },
)
link_hosts m _ t h = err unsupported_socket

-- What `connect` makes of the first pod's tail and the second pod's head.
unfoldable pub link_args :
    Machine → SocketType → PeaArgs → PeaArgs → Result PodError (PeaArgs × PeaArgs)
unfolding link_hosts
link_args m first_socket_type t h = elim (paired first_socket_type) [
  | none ↦ err unsupported_socket
  | some socket ↦
      link_hosts m first_socket_type (record t { socket_out = first_socket_type })
        (record h { socket_in = socket })
]

-- `FlowPod.connect`, of two different pods
unfoldable pub connect :
    Machine → BasePod → BasePod → SocketType → Result PodError (BasePod × BasePod)
connect m first_pod second_pod first_socket_type = do
  t ← tail_args first_pod
  h ← head_args second_pod
  linked ← link_args m first_socket_type t h
  first' ← set_tail_args linked.0 first_pod
  second' ← set_head_args linked.1 second_pod
  ok (first', second')

-- `connect_to_tail_of`: `self` drops its head and its peas receive from the tail of `p`.
unfoldable pub connect_to_tail_of :
    Machine → Random → BasePod → BasePod → Result PodError (BasePod × BasePod)
connect_to_tail_of m r self p =
    if ltb 1 self.args.parallel && self.is_head_router
    then (do
      old ← tail_args p
      p' ← set_tail_args (copy_to_head_args r old (is_push self.args.polling) false) p
      t ← tail_args p'
      mine ← tail_args self
      ok (
        record self {
          peas = set_peas_args m r self.args (some t) (some mine);
          head_pea = none;
          is_head_router = false;
          deducted_head = some t;
        },
        p',
      ))
    else err no_head_router

-- `connect_to_head_of`: `self` drops its tail and its peas send to the head of `p`.
unfoldable pub connect_to_head_of :
    Machine → Random → BasePod → BasePod → Result PodError (BasePod × BasePod)
connect_to_head_of m r self p =
    if ltb 1 self.args.parallel && self.is_tail_router
    then (do
      old ← head_args p
      p' ← set_head_args (copy_to_tail_args r old false) p
      h ← head_args p'
      mine ← head_args self
      ok (
        record self {
          peas = set_peas_args m r self.args (some mine) (some h);
          tail_pea = none;
          is_tail_router = false;
          deducted_tail = some h;
        },
        p',
      ))
    else err no_tail_router
