-- ===== src/Flow/AddLaws.antt =====
-- What `add` and the methods over it do to a flow, and the invariant that they keep.
use jina.Prelude.{
  String, ◌<>◌, ◌≡◌, refl, ◌⊎◌, inl, inr, Bool, true, false, Option, some, List, [], ◌∷◌, ◌++◌, map,
  leb, ◌==◌, eq_iff, ok, length, arith, Result-cases, Bool-cases, Option-cases,
}
use jina.Prelude.Dict
use jina.Prelude.Dict.{
  Dict, contains, lookup-insert, contains-keys-insert, NodupKeys, insert-NodupKeys,
}
use jina.Prelude.Names.{is_identifier, to_set}
use jina.Enums.{empty, PodRoleType, inspect_aux_pass, FlowInspectType, FlowOptimizeLevel}
use jina.Flow.{Kwargs, Factory, FlowPod, Flow, Endpoint, one, many, last, get_or, init, remove_key}
use jina.Flow.Add.{
  hanging_pods, endpoint_list, inspected, parse_endpoints, set_last_pod, choose_name, pod_kwargs,
  put_pod, add, needs, needs_all, register_aux, inspect, gather_inspect, inspect_names,
}

last-append : (xs : List String) (x : String) → last (xs ++ (x ∷ [])) ≡ some x
unfolding last
last-append [] x = refl
last-append (y ∷ []) x = refl
last-append (y ∷ z ∷ xs) x = last-append (z ∷ xs) x

set_last_pod-ok :
    {P : Type 0} (name : String) (f g : Flow P)
    → set_last_pod name f ≡ ok g
    → (g.pod_nodes ≡ f.pod_nodes)
      × (last g.last_changed_pod ≡ some name)
      × (g.inspect_pods ≡ f.inspect_pods)
      × (g.build_level ≡ empty)
      × (contains (Dict.keys f.pod_nodes) name ≡ true)
unfolding set_last_pod
set_last_pod-ok name f g h = elim (Option-cases (last f.last_changed_pod)) [
  | inl e ↦ ground (arith, last-append f.last_changed_pod name)
  | inr (l, e) ↦ ground (arith, last-append f.last_changed_pod name, eq_iff name l)
]

parse_endpoints-ok :
    {P : Type 0} (f : Flow P) (name : String) (ends : Endpoint) (b : Bool) (starts : List String)
    → parse_endpoints f name ends b ≡ ok starts
    → (contains (endpoint_list f ends b) name ≡ false)
      × (starts ≡ to_set (map (inspected f.inspect_pods) (endpoint_list f ends b)))
unfolding parse_endpoints
parse_endpoints-ok f name ends b starts h = ground arith

-- The pod that `add` puts into the flow.
abbrev pub new_pod :
    {P : Type 0} → Factory P → Flow P → String → List String → PodRoleType → Kwargs → FlowPod P
new_pod factory f name ends role kwargs = record {
  needs = ends;
  role = role;
  pod = factory.flow_pod (pod_kwargs f name ends kwargs);
}

module _ {P : Type 0} (factory : Factory P) where
  -- `add`, where it succeeds, has put one pod under the chosen name, which is an identifier and is
  -- not among the given end points. The pod needs the end points, or the last pod where none is
  -- given, each replaced by the pod behind it if it is inspected. It becomes the last pod, the
  -- inspections stay as they were, and the flow has to be built again.
  pub add-ok :
      (f g : Flow P) (ends : Endpoint) (role : PodRoleType) (name : Option String) (kwargs : Kwargs)
      → add factory f ends role name kwargs ≡ ok g
      → let n = choose_name f name in
        let given = endpoint_list f ends true in
        let starts = to_set (map (inspected f.inspect_pods) given) in
        (is_identifier n ≡ true)
        × (contains given n ≡ false)
        × (g.pod_nodes ≡ Dict.insert n (new_pod factory f n starts role kwargs) f.pod_nodes)
        × (last g.last_changed_pod ≡ some n)
        × (g.inspect_pods ≡ f.inspect_pods)
        × (g.build_level ≡ empty)
  unfolding add put_pod
  add-ok f g ends role name kwargs h =
      let n = choose_name f name in
      elim (Bool-cases (is_identifier n)) [
        | inr bad ↦ absurd (ground arith)
        | inl good ↦ elim (Result-cases (parse_endpoints f n ends true)) [
          | inr (_, bad) ↦ absurd (ground arith)
          | inl (starts, e) ↦
              let put = put_pod factory n starts role kwargs f in
              let (p, l, i, b, _) = set_last_pod-ok n put g (ground arith) in
              let (free, s) = parse_endpoints-ok f n ends true starts e in
              (good, free, rw (← s) p, l, i, b)
        ]
      ]

-- The last pod is the gateway or in the flow, the pods that stand in for inspected ones are in the
-- flow, and no pod's name is listed twice.
pub record IsValid {P : Type 0} (f : Flow P) : Type 0 where
  pub last_known :
      (l : String)
      → last f.last_changed_pod ≡ some l
      → (l ≡ "gateway") ⊎ (contains (Dict.keys f.pod_nodes) l ≡ true)
  pub aux_known :
      (k a : String)
      → Dict.lookup k f.inspect_pods ≡ some a
      → contains (Dict.keys f.pod_nodes) a ≡ true
  pub distinct : NodupKeys f.pod_nodes

module _ {P : Type 0} (factory : Factory P) where
  add-IsValid :
      (f g : Flow P) (ends : Endpoint) (role : PodRoleType) (name : Option String) (kwargs : Kwargs)
      → IsValid f
      → add factory f ends role name kwargs ≡ ok g
      → IsValid g
  add-IsValid f g ends role name kwargs v h =
      let (_, _, p, l, i, _) = add-ok factory f g ends role name kwargs h in
      let n = choose_name f name in
      record {
        last_known = λ k e. inr (rw p (rw contains-keys-insert (ground (arith, eq_iff n k))));
        aux_known =
            λ k a e. rw p (rw contains-keys-insert (ground (arith, v.aux_known k a (rw i at e))));
        distinct = rw p (insert-NodupKeys n _ f.pod_nodes v.distinct);
      }

  needs-IsValid :
      (f g : Flow P) (ends : List String) (name : String) (kwargs : Kwargs)
      → IsValid f
      → needs factory f ends name kwargs ≡ ok g
      → IsValid g
  unfolding needs
  needs-IsValid f g ends name kwargs v h = elim (Bool-cases (leb (length ends) 1)) [
    | inl few ↦ absurd (ground arith)
    | inr more ↦ add-IsValid f g (many ends) PodRoleType.join (some name) kwargs v (ground arith)
  ]

  needs_all-IsValid :
      (f g : Flow P) (name : String) (kwargs : Kwargs)
      → IsValid f
      → needs_all factory f name kwargs ≡ ok g
      → IsValid g
  unfolding needs_all
  needs_all-IsValid f g name kwargs v h = elim (Bool-cases (length (hanging_pods f) == 1)) [
    | inl one_pod ↦
        add-IsValid f g (many (hanging_pods f)) PodRoleType.pod (some name) kwargs v (ground arith)
    | inr other ↦ needs-IsValid f g (hanging_pods f) name kwargs v (ground arith)
  ]

  gather_inspect-IsValid :
      (f g : Flow P) (name uses : String) (include_last_pod : Bool) (kwargs : Kwargs)
      → IsValid f
      → gather_inspect factory f name uses include_last_pod kwargs ≡ ok g
      → IsValid g
  unfolding gather_inspect
  gather_inspect-IsValid f g name uses include_last_pod kwargs v h =
      elim (Bool-cases (length (inspect_names f.pod_nodes) == 0)) [
        | inl none_there ↦ let e : f ≡ g = ground arith in rw (← e) v
        | inr some_there ↦ add-IsValid f g _ _ _ _ v (rw some_there at h)
      ]

  register_aux-IsValid :
      (k n : String) (f : Flow P)
      → IsValid f
      → last f.last_changed_pod ≡ some n
      → contains (Dict.keys f.pod_nodes) n ≡ true
      → IsValid (register_aux k f)
  unfolding register_aux
  register_aux-IsValid k n f v l here = record {
    last_known = v.last_known;
    aux_known = λ j a e. ground (arith, lookup-insert k j n f.inspect_pods, v.aux_known j a);
    distinct = v.distinct;
  }

  inspect-IsValid :
      (f g : Flow P) (name : String) (kwargs : Kwargs)
      → IsValid f
      → inspect factory f name kwargs ≡ ok g
      → IsValid g
  unfolding inspect
  inspect-IsValid f g name kwargs v h =
      let k = get_or (last f.last_changed_pod) "" in
      elim (Result-cases (add factory f (one k) PodRoleType.inspect (some name) kwargs)) [
        | inr (_, bad) ↦ absurd (ground arith)
        | inl (f₁, e₁) ↦
            let more = remove_key "uses" kwargs in
            let aux = some ("_aux_" <> name) in
            elim (Result-cases (add factory f₁ (one k) inspect_aux_pass aux more)) [
              | inr (_, bad) ↦ absurd (ground arith)
              | inl (f₂, e₂) ↦
                  let v₁ = add-IsValid f f₁ (one k) PodRoleType.inspect (some name) kwargs v e₁ in
                  let v₂ = add-IsValid f₁ f₂ (one k) inspect_aux_pass aux more v₁ e₂ in
                  let (_, _, p, l, _, _) =
                    add-ok factory f₁ f₂ (one k) inspect_aux_pass aux more e₂ in
                  let n = choose_name f₁ aux in
                  let e : register_aux k f₂ ≡ g = ground arith in
                  rw (← e) (
                    register_aux-IsValid k n f₂ v₂ l
                      (rw p (rw contains-keys-insert (ground (arith, eq_iff n n)))))
            ]
      ]

  -- The methods that grow a flow, where they succeed.
  pub data Modify (f g : Flow P) : Type 0 where
    added :
        (ends : Endpoint) (role : PodRoleType) (name : Option String) (kwargs : Kwargs)
        → add factory f ends role name kwargs ≡ ok g
        → Modify f g
    joined :
        (ends : List String) (name : String) (kwargs : Kwargs)
        → needs factory f ends name kwargs ≡ ok g
        → Modify f g
    joined_all :
        (name : String) (kwargs : Kwargs) → needs_all factory f name kwargs ≡ ok g → Modify f g
    inspected_last :
        (name : String) (kwargs : Kwargs) → inspect factory f name kwargs ≡ ok g → Modify f g
    gathered :
        (name uses : String) (include_last_pod : Bool) (kwargs : Kwargs)
        → gather_inspect factory f name uses include_last_pod kwargs ≡ ok g
        → Modify f g

  pub data Reach (f : Flow P) : Flow P → Type 0 where
    here : Reach f f
    next : {g h : Flow P} → Reach f g → Modify g h → Reach f h

  Modify-IsValid : (f g : Flow P) → Modify f g → IsValid f → IsValid g
  Modify-IsValid f g (added ends role name kwargs e) v = add-IsValid f g ends role name kwargs v e
  Modify-IsValid f g (joined ends name kwargs e) v = needs-IsValid f g ends name kwargs v e
  Modify-IsValid f g (joined_all name kwargs e) v = needs_all-IsValid f g name kwargs v e
  Modify-IsValid f g (inspected_last name kwargs e) v = inspect-IsValid f g name kwargs v e
  Modify-IsValid f g (gathered name uses last_too kwargs e) v =
      gather_inspect-IsValid f g name uses last_too kwargs v e

  Reach-IsValid : {f g : Flow P} → IsValid f → Reach f g → IsValid g
  Reach-IsValid v here = v
  Reach-IsValid v (next {g} {h} r m) = Modify-IsValid g h m (Reach-IsValid v r)

  init-IsValid :
      (kwargs : Kwargs) (log_id : String) (t : FlowInspectType) (o : FlowOptimizeLevel)
      → IsValid {P = P} (init kwargs log_id t o)
  unfolding init last Dict.lookup
  init-IsValid kwargs log_id t o = record {
    last_known = λ l e. inl (ground arith);
    aux_known = λ k a e. cc;
    distinct = tt;
  }

  -- Whatever methods have grown an empty flow, its last pod is the gateway or in the flow, each pod
  -- that stands in for an inspected one is in the flow, and no name is listed twice.
  pub init-Reach-IsValid :
      (kwargs : Kwargs) (log_id : String) (t : FlowInspectType) (o : FlowOptimizeLevel) {g : Flow P}
      → Reach (init kwargs log_id t o) g
      → IsValid g
  init-Reach-IsValid kwargs log_id t o r = Reach-IsValid (init-IsValid kwargs log_id t o) r
