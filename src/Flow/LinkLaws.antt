-- ===== src/Flow/LinkLaws.antt =====
-- The linked graph of a flow: its edges are the needs of its pods.
use jina.Prelude.{
  String, ◌≡◌, refl, Bool, false, ◌&&◌, ◌||◌, not, List, [], ◌∷◌, ◌++◌, if◌then◌else◌, str_eq,
  eq_iff, ok, err, arith, Result-cases, Bool-cases, inl, inr,
}
use jina.Prelude.Dict
use jina.Prelude.Dict.{Dict, contains, lookup-insert}
use jina.Flow.{FlowError, missing_pod, Factory, FlowPod, Flow}
use jina.Flow.Traversal.{Outgoing, outgoing_of, append_edge}
use jina.Flow.Build.{
  rewire_needs, link_needs, link_pods, link_flow, gather_pods, with_gateway, remove_inspect,
}

contains-append :
    (xs ys : List String) (k : String) → contains (xs ++ ys) k ≡ (contains xs k || contains ys k)
contains-append [] ys k = refl
contains-append (x ∷ xs) ys k = ground (arith, contains-append xs ys k)

outgoing_of-append_edge :
    (start end : String) (m : Outgoing) (j : String)
    → outgoing_of (append_edge start end m) j
      ≡ (if str_eq start j then outgoing_of m j ++ (end ∷ []) else outgoing_of m j)
unfolding outgoing_of append_edge
outgoing_of-append_edge start end m j =
    ground (arith, lookup-insert start j (outgoing_of m start ++ (end ∷ [])) m, eq_iff start j)

module _ {P : Type 0} where
  -- Some pod called `end` needs `start`.
  abbrev pub is_needed : Dict (FlowPod P) → String → String → Bool
  is_needed [] start end = false
  is_needed ((k, p) ∷ pods) start end =
      (str_eq k end && contains p.needs start) || is_needed pods start end

  link_needs-edges :
      (nodes : Dict (FlowPod P)) (starts : List String) (end : String) (m m' : Outgoing)
      (j k : String)
      → link_needs nodes starts end m ≡ ok m'
      → (contains (outgoing_of m' j) k
          ≡ (contains (outgoing_of m j) k || (str_eq end k && contains starts j)))
        × ((contains starts j && not (contains (Dict.keys nodes) j)) ≡ false)
  unfolding link_needs
  link_needs-edges nodes [] end m m' j k h = ground arith
  link_needs-edges nodes (start ∷ starts) end m m' j k h = ground (
    arith,
    link_needs-edges nodes starts end (append_edge start end m) m' j k,
    outgoing_of-append_edge start end m j,
    contains-append (outgoing_of m j) (end ∷ []) k,
    eq_iff start j,
  )

  link_needs-err :
      (nodes : Dict (FlowPod P)) (starts : List String) (end : String) (m : Outgoing)
      (e : FlowError)
      → link_needs nodes starts end m ≡ err e
      → (s : String) × (e ≡ missing_pod s) × (contains (Dict.keys nodes) s ≡ false)
  unfolding link_needs
  link_needs-err nodes [] end m e h = cc
  link_needs-err nodes (start ∷ starts) end m e h =
      elim (Bool-cases (contains (Dict.keys nodes) start)) [
        | inl known ↦ link_needs-err nodes starts end (append_edge start end m) e (ground arith)
        | inr unknown ↦ (start, ground arith, unknown)
      ]

  link_pods-edges :
      (f : Flow P) (pods pods' : Dict (FlowPod P)) (m m' : Outgoing) (j k : String)
      → link_pods f pods m ≡ ok (pods', m')
      → (Dict.keys pods' ≡ Dict.keys pods)
        × (contains (outgoing_of m' j) k ≡ (contains (outgoing_of m j) k || is_needed pods' j k))
        × ((is_needed pods' j k && not (contains (Dict.keys f.pod_nodes) j)) ≡ false)
  unfolding link_pods
  link_pods-edges f [] pods' m m' j k h = ground arith
  link_pods-edges f ((end, p) ∷ pods) pods' m m' j k h =
      let needs = rewire_needs f p in
      elim (Result-cases (link_needs f.pod_nodes needs end m)) [
        | inr (_, bad) ↦ absurd (ground arith)
        | inl (m₁, e₁) ↦ elim (Result-cases (link_pods f pods m₁)) [
          | inr (_, bad) ↦ absurd (ground arith)
          | inl ((pods₁, m₂), e₂) ↦ ground (
            arith,
            link_needs-edges f.pod_nodes needs end m m₁ j k e₁,
            link_pods-edges f pods pods₁ m₁ m₂ j k e₂,
          )
        ]
      ]

  link_pods-err :
      (f : Flow P) (pods : Dict (FlowPod P)) (m : Outgoing) (e : FlowError)
      → link_pods f pods m ≡ err e
      → (s : String) × (e ≡ missing_pod s) × (contains (Dict.keys f.pod_nodes) s ≡ false)
  unfolding link_pods
  link_pods-err f [] m e h = cc
  link_pods-err f ((end, p) ∷ pods) m e h =
      let needs = rewire_needs f p in
      elim (Result-cases (link_needs f.pod_nodes needs end m)) [
        | inr (e', bad) ↦ link_needs-err f.pod_nodes needs end m e (ground arith)
        | inl (m₁, e₁) ↦ elim (Result-cases (link_pods f pods m₁)) [
          | inr (e', bad) ↦ link_pods-err f pods m₁ e (ground arith)
          | inl (linked, e₂) ↦ absurd (ground arith)
        ]
      ]

  -- Where `build` links the graph, `end` is among the outgoing edges of `start` exactly if some pod
  -- called `end` needs `start`, and whatever a pod needs is a pod of the flow.
  pub link_flow-edges :
      (factory : Factory P) (f g : Flow P) (m : Outgoing) (start end : String)
      → link_flow factory f ≡ ok (g, m)
      → (contains (outgoing_of m start) end ≡ is_needed g.pod_nodes start end)
        × ((is_needed g.pod_nodes start end && not (contains (Dict.keys g.pod_nodes) start))
            ≡ false)
  unfolding link_flow outgoing_of Dict.lookup
  link_flow-edges factory f g m start end h = elim (Result-cases (gather_pods factory f)) [
    | inr (_, bad) ↦ absurd (ground arith)
    | inl (f₁, e₁) ↦
        let f₂ = remove_inspect factory (with_gateway factory f₁) in
        elim (Result-cases (link_pods f₂ f₂.pod_nodes [])) [
          | inr (_, bad) ↦ absurd (ground arith)
          | inl ((pods, m'), e₂) ↦
              let (same_keys, edges, known) =
                link_pods-edges f₂ f₂.pod_nodes pods [] m' start end e₂ in
              let eg : record f₂ { pod_nodes = pods } ≡ g = ground arith in
              let em : m' ≡ m = ground arith in rw (← eg, ← em) (edges, rw same_keys known)
        ]
  ]
