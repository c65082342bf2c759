-- ===== src/Pods/Wiring.antt =====
-- The peas of a pod and the pods of a flow fit together: ports, sockets and hosts of both ends.
use jina.Prelude.{
  ℕ, zero, suc, ◌≡◌, refl, ◌⊎◌, inl, inr, ◌||◌, ◌∙◌, Bool, true, false, Option, none, some, ok,
  Result-cases, length, All, arith, ltb, if◌then◌else◌, ap, Bool-cases,
}
use jina.Enums.{
  SocketType, paired, is_bind, is_push, router_bind, dealer_connect, push_bind, push_connect,
  pub_bind,
}
use jina.Pods.{
  PeaArgs, Random, Machine, BasePod, default_host, is_given, fill_in_host, head_socket,
  copy_to_head_args, copy_to_tail_args, pea_socket, set_pea_args, set_peas_from, set_peas_args,
  parse_args, parse_parallel, parse_around, parse_single, set_after_to_pass,
}
use jina.Pods.Link.{head_args, tail_args, set_head_args, set_tail_args, link_args, connect}

-- The sockets of the two ends of a link fit.
abbrev pub Fits : SocketType → SocketType → Type 0
Fits s t = (paired s ≡ some t) ⊎ (s ≡ router_bind) × (t ≡ dealer_connect)

-- What `a` sends arrives at `b`.
pub record IsLinked (a b : PeaArgs) : Type 0 where
  pub port : a.port_out ≡ b.port_in
  pub socket : Fits a.socket_out b.socket_in

abbrev pub LinkedFrom : Option PeaArgs → PeaArgs → Type 0
LinkedFrom none b = Unit
LinkedFrom (some a) b = IsLinked a b

abbrev pub LinkedTo : PeaArgs → Option PeaArgs → Type 0
LinkedTo a none = Unit
LinkedTo a (some b) = IsLinked a b

-- Writing the head or the tail of a pod and reading it back.
pub head_args-set : (a : PeaArgs) (p q : BasePod) → set_head_args a p ≡ ok q → head_args q ≡ ok a
unfolding head_args set_head_args
head_args-set a p q h = ground arith

pub tail_args-set : (a : PeaArgs) (p q : BasePod) → set_tail_args a p ≡ ok q → tail_args q ≡ ok a
unfolding tail_args set_tail_args
tail_args-set a p q h = ground arith

-- The two sides of `connect`: the binding side is at the default host, and the connecting side is
-- told the host of the binding side.
abbrev pub HostsFit : Machine → PeaArgs → PeaArgs → Bool → Type 0
HostsFit m t h true = (t.host_out ≡ default_host) × (h.host_in ≡ fill_in_host m t h)
HostsFit m t h false = (h.host_in ≡ default_host) × (t.host_out ≡ fill_in_host m h t)

link_args-fits :
    (m : Machine) (type : SocketType) (t h t' h' : PeaArgs)
    → link_args m type t h ≡ ok (t', h')
    → (t'.port_out ≡ h'.port_in)
      × (t'.socket_out ≡ type)
      × (paired type ≡ some h'.socket_in)
      × HostsFit m t' h' (is_bind type)
unfolding link_args paired is_bind fill_in_host
link_args-fits m push_bind t h t' h' e = ground arith
link_args-fits m push_connect t h t' h' e = ground arith
link_args-fits m pub_bind t h t' h' e = ground arith
link_args-fits m _ t h t' h' e = cc

-- After `connect` the tail of the first pod sends to the port at which the head of the second
-- receives, through the two ends of one kind of link, and the hosts of the two sides fit.
pub connect-fits :
    (m : Machine) (p q p' q' : BasePod) (type : SocketType)
    → connect m p q type ≡ ok (p', q')
    → (t : PeaArgs) × (h : PeaArgs) × (tail_args p' ≡ ok t)
      × (head_args q' ≡ ok h)
      × (t.port_out ≡ h.port_in)
      × (t.socket_out ≡ type)
      × (paired type ≡ some h.socket_in)
      × HostsFit m t h (is_bind type)
unfolding connect
connect-fits m p q p' q' type e = elim (Result-cases (tail_args p)) [
  | inr (_, bad) ↦ absurd (ground arith)
  | inl (t₀, e₁) ↦ elim (Result-cases (head_args q)) [
    | inr (_, bad) ↦ absurd (ground arith)
    | inl (h₀, e₂) ↦ elim (Result-cases (link_args m type t₀ h₀)) [
      | inr (_, bad) ↦ absurd (ground arith)
      | inl ((t, h), e₃) ↦ elim (Result-cases (set_tail_args t p)) [
        | inr (_, bad) ↦ absurd (ground arith)
        | inl (p'', e₄) ↦ elim (Result-cases (set_head_args h q)) [
          | inr (_, bad) ↦ absurd (ground arith)
          | inl (q'', e₅) ↦
              let fits = link_args-fits m type t₀ h₀ t h e₃ in
              (
                t,
                h,
                ground (arith, tail_args-set t p p'' e₄),
                ground (arith, head_args-set h q q'' e₅),
                fits.0,
                fits.1,
                fits.2,
                fits.3,
              )
        ]
      ]
    ]
  ]
]

-- A head whose socket is the one that its pea expects.
abbrev HeadFits : PeaArgs → Option PeaArgs → Type 0
HeadFits a none = Unit
HeadFits a (some h) = Fits h.socket_out (pea_socket a)

abbrev TailFits : Option PeaArgs → Type 0
TailFits none = Unit
TailFits (some t) = paired push_connect ≡ some t.socket_in

set_pea_args-linked :
    (m : Machine) (r : Random) (a : PeaArgs) (h t : Option PeaArgs) (i : ℕ)
    → HeadFits a h
    → TailFits t
    → LinkedFrom h (set_pea_args m r a h t i) × LinkedTo (set_pea_args m r a h t i) t
unfolding set_pea_args
set_pea_args-linked m r a none none i f g = ground arith
set_pea_args-linked m r a none (some t) i f g = (tt, record { port = refl; socket = inl g })
set_pea_args-linked m r a (some h) none i f g = (record { port = refl; socket = f }, tt)
set_pea_args-linked m r a (some h) (some t) i f g =
    (record { port = refl; socket = f }, record { port = refl; socket = inl g })

module _ (m : Machine) (r : Random) (a : PeaArgs) (h t : Option PeaArgs) (f : HeadFits a h)
    (g : TailFits t) where
  set_peas_from-linked :
      (n i : ℕ)
      → All (λ b. LinkedFrom h b × LinkedTo b t) (set_peas_from m r a h t n i)
        × (length (set_peas_from m r a h t n i) ≡ n)
  unfolding set_peas_from
  set_peas_from-linked zero i = (tt, refl)
  set_peas_from-linked (suc n) i =
      let (p, q) = set_peas_from-linked n (suc i) in
      ((set_pea_args-linked m r a h t i f g, p), ap suc q)

  pub set_peas_args-linked :
      All (λ b. LinkedFrom h b × LinkedTo b t) (set_peas_args m r a h t)
      × (length (set_peas_args m r a h t) ≡ a.parallel)
  unfolding set_peas_args
  set_peas_args-linked = set_peas_from-linked a.parallel 0

-- A pod's peas are linked to its head and to its tail, where it has them.
abbrev pub IsWired : BasePod → Type 0
IsWired p = All (λ b. LinkedFrom p.head_pea b × LinkedTo b p.tail_pea) p.peas

head_socket-fits :
    (a : PeaArgs) → Fits (head_socket (is_push a.polling) a.scheduling) (pea_socket a)
unfolding head_socket pea_socket paired is_push
head_socket-fits a = ground arith

-- The pod has one pea, or as many as it is parallel behind a head or before a tail.
abbrev pub HasPeas : ℕ → BasePod → Type 0
HasPeas n p = length p.peas ≡ (if p.is_head_router || p.is_tail_router then n else 1)

parse_parallel-IsWired :
    (m : Machine) (r : Random) (a : PeaArgs)
    → IsWired (parse_parallel m r a) × HasPeas a.parallel (parse_parallel m r a)
unfolding parse_parallel set_after_to_pass copy_to_head_args copy_to_tail_args is_push paired
parse_parallel-IsWired m r a =
    let p = parse_parallel m r a in
    let (w, n) =
      set_peas_args-linked m r p.args p.head_pea p.tail_pea (head_socket-fits p.args) refl in
    (w, n ∙ (ground arith))

parse_around-IsWired :
    (m : Machine) (r : Random) (a : PeaArgs)
    → is_given a.uses_before || is_given a.uses_after ≡ true
    → IsWired (parse_around m r a) × HasPeas a.parallel (parse_around m r a)
unfolding parse_around copy_to_head_args copy_to_tail_args head_socket pea_socket is_push paired
parse_around-IsWired m r a given =
    let p = parse_around m r a in
    let (w, n) =
      set_peas_args-linked m r p.args p.head_pea p.tail_pea (ground arith) (ground arith) in
    (w, n ∙ (ground arith))

-- Whatever the arguments, the pod that they make is wired: each of its peas is linked to its head
-- and to its tail, where it has them. It has as many peas as it is parallel, or one if it has
-- neither a head nor a tail.
pub parse_args-IsWired :
    (m : Machine) (r : Random) (a : PeaArgs)
    → IsWired (parse_args m r a) × HasPeas a.parallel (parse_args m r a)
unfolding parse_args parse_single set_after_to_pass
parse_args-IsWired m r a = elim (Bool-cases (ltb 1 a.parallel)) [
  | inl many ↦ rw many (parse_parallel-IsWired m r a)
  | inr few ↦ elim (Bool-cases (is_given a.uses_before || is_given a.uses_after)) [
    | inl given ↦ rw (few, given) (parse_around-IsWired m r a given)
    | inr bare ↦ rw (few, bare) (((tt, tt), tt), refl)
  ]
]
