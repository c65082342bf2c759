-- ===== src/Flow/AddCounts.antt =====
-- How many pods `add` leaves, and which pods are hanging.
use jina.Prelude.{
  ◌+◌, String, ◌≡◌, refl, Bool, ◌&&◌, not, Option, List, [], ◌∷◌, if◌then◌else◌, eq_iff, ok, inl,
  inr, length, arith, select, Bool-cases,
}
use jina.Prelude.Dict
use jina.Prelude.Dict.{Dict, contains, length-insert_new, length-insert_old, contains-keys}
use jina.Prelude.Names.{contains-to_set}
use jina.Enums.{PodRoleType}
use jina.Flow.{Kwargs, Factory, Flow, Endpoint, all_needs}
use jina.Flow.Add.{hanging_pods, choose_name, add}
use jina.Flow.AddLaws.{add-ok}

contains-select :
    (p : String → Bool) (xs : List String) (k : String)
    → contains (select p xs) k ≡ (contains xs k && p k)
contains-select p [] k = refl
contains-select p (x ∷ xs) k = ground (arith, contains-select p xs k, eq_iff x k)

module _ {P : Type 0} where
  -- `add` makes the flow one pod longer if the name that it chooses is new, and otherwise replaces
  -- the pod of that name, so that the flow keeps its length.
  pub add-length :
      (factory : Factory P) (f g : Flow P) (ends : Endpoint) (role : PodRoleType)
      (name : Option String) (kwargs : Kwargs)
      → add factory f ends role name kwargs ≡ ok g
      → length g.pod_nodes ≡ (
          if contains (Dict.keys f.pod_nodes) (choose_name f name)
          then length f.pod_nodes
          else length f.pod_nodes + 1)
  add-length factory f g ends role name kwargs h =
      let (_, _, p, _, _, _) = add-ok factory f g ends role name kwargs h in
      let n = choose_name f name in
      elim (Bool-cases (contains (Dict.keys f.pod_nodes) n)) [
        | inl used ↦ rw (p, used) (length-insert_old n _ f.pod_nodes used)
        | inr fresh ↦
            rw (p, fresh)
              (length-insert_new n _ f.pod_nodes (ground (arith, contains-keys f.pod_nodes n)))
      ]

  -- The hanging pods are exactly the pods that no pod needs.
  contains-hanging_pods :
      (f : Flow P) (k : String)
      → contains (hanging_pods f) k
        ≡ (contains (Dict.keys f.pod_nodes) k && not (contains (all_needs f.pod_nodes) k))
  unfolding hanging_pods
  contains-hanging_pods f k = rw (contains-select, contains-to_set)
