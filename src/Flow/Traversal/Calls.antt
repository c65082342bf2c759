-- ===== src/Flow/Traversal/Calls.antt =====
-- The sequence of the calls that `_traverse_graph` makes, and that its fuel is enough.
use jina.Prelude.{
  ℕ, zero, suc, ◌+◌, ◌-◌, ◌*◌, ◌≤◌, ◌<◌, String, ◌≡◌, refl, inl, inr, Option, none, some, List, [],
  ◌∷◌, Result, ok, ◌>>=◌, length, get_elem?, arith, eq_iff, Option-cases, Result-cases,
}
use jina.Prelude.Dict
use jina.Prelude.Dict.{Dict, lookup-insert}
use jina.Flow.Traversal.{Outgoing, outgoing_of, zeros, edge_count, push_ends, traverse_loop}

abbrev pub Edge : Type 0
Edge = String × String

module _ {E S : Type 0} (func : String → String → S → Result E S) where
  -- The calls of `func` along a list of edges; the first exception ends them.
  abbrev pub run : List Edge → S → Result E S
  run [] s = ok s
  run ((a, b) ∷ es) s = func a b s >>= λ t. run es t

-- `Dict.get(k, 0)`
abbrev pub at : Dict ℕ → String → ℕ
at idx k = elim (Dict.lookup k idx) [ none ↦ 0 | some i ↦ i ]

abbrev cons_call : Edge → Option (List Edge) → Option (List Edge)
cons_call e none = none
cons_call e (some es) = some (e ∷ es)

module _ (outgoing : Outgoing) where
  -- The calls of the loop, if none of them raises.
  unfoldable pub calls : ℕ → Dict ℕ → List String → Option (List Edge)
  unfolding push_ends outgoing_of
  calls zero idx stack = none
  calls (suc fuel) idx [] = some []
  calls (suc fuel) idx (start ∷ stack) = elim (Dict.lookup start idx) [
    | none ↦ calls fuel idx stack
    | some i ↦ elim (get_elem? (outgoing_of outgoing start) i) [
      | none ↦ calls fuel idx stack
      | some end ↦
          cons_call (start, end)
            (calls fuel (Dict.insert start (suc i) idx)
              (push_ends start end (suc i) (length (outgoing_of outgoing start)) stack))
    ]
  ]

  -- A loop whose calls are known runs them.
  pub traverse_loop-run :
      {E S : Type 0} (func : String → String → S → Result E S) (fuel : ℕ) (idx : Dict ℕ)
      (stack : List String) (s : S) (es : List Edge)
      → calls fuel idx stack ≡ some es
      → traverse_loop outgoing func fuel idx stack s ≡ some (run func es s)
  unfolding calls traverse_loop
  traverse_loop-run func zero idx stack s es h = cc
  traverse_loop-run func (suc fuel) idx [] s es h = ground arith
  traverse_loop-run func (suc fuel) idx (start ∷ stack) s es h =
      elim (Option-cases (Dict.lookup start idx)) [
        | inl none_left ↦ ground (arith, traverse_loop-run func fuel idx stack s es)
        | inr (i, at_i) ↦ elim (Option-cases (get_elem? (outgoing_of outgoing start) i)) [
          | inl done ↦ ground (arith, traverse_loop-run func fuel idx stack s es)
          | inr (end, edge) ↦
              let idx' = Dict.insert start (suc i) idx in
              let degree = length (outgoing_of outgoing start) in
              let stack' = push_ends start end (suc i) degree stack in
              elim (Option-cases (calls fuel idx' stack')) [
                | inl out_of_fuel ↦ ground arith
                | inr (rest, later) ↦ elim (Result-cases (func start end s)) [
                  | inl (t, called) ↦
                      ground (arith, traverse_loop-run func fuel idx' stack' t rest later)
                  | inr (e, raised) ↦ ground arith
                ]
              ]
        ]
      ]

-- The edges that are still to be followed.
remaining : Outgoing → Dict ℕ → ℕ
remaining [] idx = 0
remaining ((k, ends) ∷ m) idx = (length ends - at idx k) + remaining m idx

remaining-insert-le :
    (m : Outgoing) (idx : Dict ℕ) (start : String) (i : ℕ)
    → Dict.lookup start idx ≡ some i
    → remaining m (Dict.insert start (suc i) idx) ≤ remaining m idx
unfolding remaining
remaining-insert-le [] idx start i h = omega arith
remaining-insert-le ((k, ends) ∷ m) idx start i h =
    ground
      (arith, lookup-insert start k (suc i) idx, eq_iff start k, remaining-insert-le m idx start i)

remaining-insert-lt :
    (m : Outgoing) (idx : Dict ℕ) (start : String) (i : ℕ)
    → Dict.lookup start idx ≡ some i
    → i < length (outgoing_of m start)
    → remaining m (Dict.insert start (suc i) idx) < remaining m idx
unfolding remaining outgoing_of Dict.lookup
remaining-insert-lt [] idx start i h lt = absurd (omega arith)
remaining-insert-lt ((k, ends) ∷ m) idx start i h lt = ground (
  arith,
  lookup-insert start k (suc i) idx,
  eq_iff start k,
  eq_iff k start,
  remaining-insert-le m idx start i,
  remaining-insert-lt m idx start i,
)

get_elem?-lt : (xs : List String) (i : ℕ) (x : String) → get_elem? xs i ≡ some x → i < length xs
get_elem?-lt [] i x h = cc
get_elem?-lt (y ∷ xs) zero x h = omega arith
get_elem?-lt (y ∷ xs) (suc i) x h = omega (arith, get_elem?-lt xs i x h)

length-push_ends :
    (start end : String) (next degree : ℕ) (stack : List String)
    → length (push_ends start end next degree stack) ≤ length stack + 2
unfolding push_ends
length-push_ends start end next degree stack = ground arith

remaining-zeros : (m : Outgoing) (idx : Dict ℕ) → remaining m idx ≤ edge_count m
unfolding remaining edge_count
remaining-zeros [] idx = omega arith
remaining-zeros ((k, ends) ∷ m) idx = omega (arith, remaining-zeros m idx)

module _ (outgoing : Outgoing) where
  calls-enough :
      (fuel : ℕ) (idx : Dict ℕ) (stack : List String)
      → length stack + 2 * remaining outgoing idx < fuel
      → (es : List Edge) × (calls outgoing fuel idx stack ≡ some es)
  unfolding calls
  calls-enough zero idx stack h = absurd (omega arith)
  calls-enough (suc fuel) idx [] h = ([], refl)
  calls-enough (suc fuel) idx (start ∷ stack) h = elim (Option-cases (Dict.lookup start idx)) [
    | inl none_left ↦ let (es, p) = calls-enough fuel idx stack (omega arith) in (es, ground arith)
    | inr (i, at_i) ↦ elim (Option-cases (get_elem? (outgoing_of outgoing start) i)) [
      | inl done ↦ let (es, p) = calls-enough fuel idx stack (omega arith) in (es, ground arith)
      | inr (end, edge) ↦
          let idx' = Dict.insert start (suc i) idx in
          let degree = length (outgoing_of outgoing start) in
          let stack' = push_ends start end (suc i) degree stack in
          let (es, p) = calls-enough fuel idx' stack' (
            ground (
              arith,
              remaining-insert-lt outgoing idx start i at_i,
              get_elem?-lt (outgoing_of outgoing start) i end edge,
              length-push_ends start end (suc i) degree stack,
            )) in
          ((start, end) ∷ es, ground arith)
    ]
  ]

  -- The calls of the whole walk, and that they are all made.
  pub calls-total :
      (es : List Edge) × (calls outgoing
          (2 + 2 * edge_count outgoing)
          (zeros outgoing)
          ("gateway" ∷ [])
        ≡ some es)
  calls-total = calls-enough _ _ _ (omega (arith, remaining-zeros outgoing (zeros outgoing)))
