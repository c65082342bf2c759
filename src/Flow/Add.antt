-- ===== src/Flow/Add.antt =====
-- jina/flow/__init__.py: `_parse_endpoints`, `last_pod`, `add`, `needs`, `needs_all`, `inspect`
-- and `gather_inspect`; jina/flow/builder.py: `_hanging_pods`. Each method gives the modified flow.
use jina.Prelude.{
  String, ◌<>◌, ◌==◌, Bool, true, false, not, Option, none, some, List, [], ◌∷◌, ◌++◌, map, leb,
  if◌then◌else◌, str_eq, Result, ok, err, ◌>>=◌, ◌>>◌, raise_if, length, select,
}
use jina.Prelude.Dict
use jina.Prelude.Dict.{Dict, contains}
use jina.Prelude.Names.{is_identifier, decimal, to_set}
use jina.Enums.{empty, PodRoleType, pod, join, inspect_aux_pass, join_inspect, role_value}
use jina.Flow.{
  FlowError, topology, missing_pod, invalid_name, text, number, Kwargs, Factory, FlowPod, Flow,
  Endpoint, one, many, last, get_or, add_missing, remove_key, all_needs,
}

-- `_hanging_pods`
unfoldable pub hanging_pods : {P : Type 0} → Flow P → List String
unfolding all_needs
hanging_pods f =
    select (λ k. not (contains (all_needs f.pod_nodes) k)) (to_set (Dict.keys f.pod_nodes))

-- The end points of an argument `needs`, before they are checked.
unfoldable pub endpoint_list : {P : Type 0} → Flow P → Endpoint → Bool → List String
unfolding last
endpoint_list f (one s) connect_to_last_pod = s ∷ []
endpoint_list f (many (s ∷ ss)) connect_to_last_pod = s ∷ ss
endpoint_list f _ false = []
endpoint_list f _ true = elim (last f.last_changed_pod) [ none ↦ [] | some l ↦ l ∷ [] ]

-- An end point that is being inspected is replaced by the pod that stands behind it.
unfoldable pub inspected : Dict String → String → String
unfolding Dict.lookup
inspected pods ep = get_or (Dict.lookup ep pods) ep

-- `_parse_endpoints`
unfoldable pub parse_endpoints :
    {P : Type 0} → Flow P → String → Endpoint → Bool → Result FlowError (List String)
unfolding endpoint_list inspected
parse_endpoints f pod_name endpoint connect_to_last_pod =
    let eps = endpoint_list f endpoint connect_to_last_pod in
    if contains eps pod_name then err topology else ok (to_set (map (inspected f.inspect_pods) eps))

-- The setter of `last_pod`
unfoldable pub set_last_pod : {P : Type 0} → String → Flow P → Result FlowError (Flow P)
unfolding last
set_last_pod name f =
    if contains (Dict.keys f.pod_nodes) name
    then ok (record f {
      last_changed_pod = elim (last f.last_changed_pod) [
        | none ↦ f.last_changed_pod ++ (name ∷ [])
        | some l ↦ if str_eq name l then f.last_changed_pod else f.last_changed_pod ++ (name ∷ [])
      ];
      build_level = empty;
    })
    else err (missing_pod name)

-- The name that `add` gives the pod: a name in use is extended by the number of pods, and a pod
-- without a name is called by that number.
unfoldable pub rename_used : {P : Type 0} → Flow P → String → String
rename_used f name =
    if contains (Dict.keys f.pod_nodes) name then name <> decimal (length f.pod_nodes) else name

unfoldable pub default_name : {P : Type 0} → Flow P → String → String
default_name f name = if str_eq name "" then "pod" <> decimal (length f.pod_nodes) else name

unfoldable pub choose_name : {P : Type 0} → Flow P → Option String → String
unfolding rename_used default_name
choose_name f none = default_name f ""
choose_name f (some name) = default_name f (rename_used f name)

-- The keyword arguments that `add` hands to the pod.
unfoldable pub pod_kwargs : {P : Type 0} → Flow P → String → List String → Kwargs → Kwargs
unfolding add_missing
pod_kwargs f name needs kwargs = Dict.insert "num_part" (number (length needs)) (
    Dict.insert "log-id" (text f.log_id)
      (Dict.insert "name" (text name) (add_missing f.common_kwargs kwargs)))

-- Future connections to `last_pod` go to the auxiliary pod.
unfoldable pub register_aux : {P : Type 0} → String → Flow P → Flow P
unfolding last
register_aux inspected_pod f = record f {
  inspect_pods = elim (last f.last_changed_pod) [
    | none ↦ f.inspect_pods
    | some aux ↦ Dict.insert inspected_pod aux f.inspect_pods
  ];
}

-- The names of the pods that inspect.
unfoldable pub inspect_names : {P : Type 0} → Dict (FlowPod P) → List String
inspect_names [] = []
inspect_names ((k, p) ∷ nodes) =
    let rest = inspect_names nodes in
    if role_value p.role == role_value PodRoleType.inspect then k ∷ rest else rest

unfoldable pub last_if : {P : Type 0} → Bool → Flow P → List String
unfolding last
last_if include f = if include then get_or (last f.last_changed_pod) "" ∷ [] else []

module _ {P : Type 0} (factory : Factory P) where
  -- `_pod_nodes[pod_name] = self._invoke_flowpod(kwargs, needs, pod_role)`
  unfoldable pub put_pod : String → List String → PodRoleType → Kwargs → Flow P → Flow P
  unfolding pod_kwargs
  put_pod name needs role kwargs f = record f {
    pod_nodes =
        Dict.insert name
          (record {
            needs = needs;
            role = role;
            pod = factory.flow_pod (pod_kwargs f name needs kwargs);
          })
          f.pod_nodes;
  }

  -- `add`. `name` is the keyword argument `name`.
  unfoldable pub add :
      Flow P → Endpoint → PodRoleType → Option String → Kwargs → Result FlowError (Flow P)
  add f needs role name kwargs = do
    let pod_name = choose_name f name
    raise_if (not (is_identifier pod_name)) (invalid_name pod_name)
    ends ← parse_endpoints f pod_name needs true
    set_last_pod pod_name (put_pod pod_name ends role kwargs f)

  -- `needs`
  unfoldable pub needs : Flow P → List String → String → Kwargs → Result FlowError (Flow P)
  needs f ends name kwargs =
      if leb (length ends) 1 then err topology else add f (many ends) join (some name) kwargs

  -- `needs_all`
  unfoldable pub needs_all : Flow P → String → Kwargs → Result FlowError (Flow P)
  needs_all f name kwargs =
      let ends = hanging_pods f in
      if length ends == 1
      then add f (many ends) pod (some name) kwargs
      else needs f ends name kwargs

  -- `inspect`
  unfoldable pub inspect : Flow P → String → Kwargs → Result FlowError (Flow P)
  inspect f name kwargs =
      let last_pod = get_or (last f.last_changed_pod) "" in
      do
        g ← add f (one last_pod) PodRoleType.inspect (some name) kwargs
        h ←
            add g (one last_pod) inspect_aux_pass (some ("_aux_" <> name))
              (remove_key "uses" kwargs)
        ok (register_aux last_pod h)

  -- `gather_inspect`
  unfoldable pub gather_inspect :
      Flow P → String → String → Bool → Kwargs → Result FlowError (Flow P)
  gather_inspect f name uses include_last_pod kwargs =
      let names = inspect_names f.pod_nodes in
      if length names == 0
      then ok f
      else add f (many (names ++ last_if include_last_pod f)) join_inspect (some name)
          (Dict.insert "uses" (text uses) kwargs)
