-- ===== src/Flow/Traversal.antt =====
-- jina/flow/builder.py, `_traverse_graph`: the walk over the edges of a flow from the gateway.
pub mod Calls
pub mod Visits
use jina.Prelude.{
  ℕ, zero, suc, ◌+◌, ◌*◌, String, Option, none, some, List, [], ◌∷◌, ◌++◌, ltb, if◌then◌else◌,
  Result, ok, err, length, get_elem?,
}
use jina.Prelude.Dict
use jina.Prelude.Dict.{Dict}

-- `outgoing_map`, a `defaultdict(list)`: for a pod the pods that receive from it.
abbrev pub Outgoing : Type 0
Outgoing = Dict (List String)

unfoldable pub outgoing_of : Outgoing → String → List String
unfolding Dict.lookup
outgoing_of m k = elim (Dict.lookup k m) [ none ↦ [] | some ends ↦ ends ]

-- `outgoing_map[start].append(end)`
unfoldable pub append_edge : String → String → Outgoing → Outgoing
unfolding outgoing_of
append_edge start end m = Dict.insert start (outgoing_of m start ++ (end ∷ [])) m

-- `dict.fromkeys(outgoing_map.keys(), 0)`
unfoldable pub zeros : Outgoing → Dict ℕ
zeros [] = []
zeros ((k, ends) ∷ m) = (k, 0) ∷ zeros m

unfoldable pub edge_count : Outgoing → ℕ
edge_count [] = 0
edge_count ((k, ends) ∷ m) = length ends + edge_count m

-- The stack after a call on the edge from `start`: `end`, and `start` above it if it has more edges.
unfoldable pub push_ends : String → String → ℕ → ℕ → List String → List String
push_ends start end next degree stack = if ltb next degree then start ∷ end ∷ stack else end ∷ stack

module _ {E S : Type 0} (outgoing : Outgoing) (func : String → String → S → Result E S) where
  -- The `while stack` loop; the top of the stack stands first. `none` means that the fuel ran out.
  unfoldable pub traverse_loop : ℕ → Dict ℕ → List String → S → Option (Result E S)
  unfolding push_ends outgoing_of
  traverse_loop zero idx stack s = none
  traverse_loop (suc fuel) idx [] s = some (ok s)
  traverse_loop (suc fuel) idx (start ∷ stack) s = elim (Dict.lookup start idx) [
    | none ↦ traverse_loop fuel idx stack s
    | some i ↦ elim (get_elem? (outgoing_of outgoing start) i) [
      | none ↦ traverse_loop fuel idx stack s
      | some end ↦ elim (func start end s) [
        | err e ↦ some (err e)
        | ok s' ↦
            traverse_loop fuel (Dict.insert start (suc i) idx)
              (push_ends start end (suc i) (length (outgoing_of outgoing start)) stack) s'
      ]
    ]
  ]

  -- `_traverse_graph`. Each round takes one name off the stack, and only a round that follows an
  -- edge puts names back, two at most.
  unfoldable pub traverse_graph : S → Option (Result E S)
  unfolding traverse_loop zeros edge_count
  traverse_graph s = traverse_loop (2 + 2 * edge_count outgoing) (zeros outgoing) ("gateway" ∷ []) s
