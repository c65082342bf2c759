-- ===== src/Flow/Traversal/Visits.antt =====
-- What `_traverse_graph` visits: the edges of the pods that it reaches, each once and in order.
use jina.Prelude.{
  ℕ, zero, suc, ◌≤◌, String, ◌≡◌, refl, ap, ◌⊎◌, inl, inr, Bool, true, false, ◌||◌, none, some,
  List, [], ◌∷◌, ◌++◌, if◌then◌else◌, Result, length, get_elem?, take, arith, eq_iff, str_eq,
  Option-cases, Bool-cases,
}
use mathlib.Core.List.{append-nil, append_assoc}
use jina.Prelude.Dict
use jina.Prelude.Dict.{Dict, contains, lookup-insert}
use jina.Flow.Traversal.{Outgoing, outgoing_of, zeros, push_ends, traverse_graph}
use jina.Flow.Traversal.Calls.{Edge, run, at, calls, traverse_loop-run, calls-total}

-- The ends of the edges in a list that start at `k`.
abbrev pub ends_of : String → List Edge → List String
ends_of k [] = []
ends_of k ((a, b) ∷ es) = let rest = ends_of k es in if str_eq a k then b ∷ rest else rest

abbrev pub is_end : List Edge → String → Bool
is_end [] k = false
is_end ((a, b) ∷ es) k = str_eq b k || is_end es k

-- The walk reaches the gateway and the ends of the edges that it follows.
abbrev pub is_reached : List Edge → String → Bool
is_reached es k = str_eq "gateway" k || is_end es k

ends_of-append :
    (k : String) (es : List Edge) (a b : String)
    → ends_of k (es ++ ((a, b) ∷ []))
      ≡ (if str_eq a k then ends_of k es ++ (b ∷ []) else ends_of k es)
ends_of-append k [] a b = refl
ends_of-append k ((c, d) ∷ es) a b = ground (arith, ends_of-append k es a b)

is_end-append :
    (k : String) (es : List Edge) (a b : String)
    → is_end (es ++ ((a, b) ∷ [])) k ≡ (is_end es k || str_eq b k)
is_end-append k [] a b = ground arith
is_end-append k ((c, d) ∷ es) a b = ground (arith, is_end-append k es a b)

take-suc :
    (xs : List String) (i : ℕ) (x : String)
    → get_elem? xs i ≡ some x
    → (take (suc i) xs ≡ take i xs ++ (x ∷ [])) × (suc i ≤ length xs)
take-suc [] i x h = cc
take-suc (y ∷ xs) zero x h = ground arith
take-suc (y ∷ xs) (suc i) x h = let (p, q) = take-suc xs i x h in (ap (λ t. y ∷ t) p, omega arith)

take-all : (xs : List String) → take (length xs) xs ≡ xs
take-all [] = refl
take-all (x ∷ xs) = ap (λ t. x ∷ t) (take-all xs)

get_elem?-none : (xs : List String) (i : ℕ) → get_elem? xs i ≡ none → length xs ≤ i
get_elem?-none [] i h = omega arith
get_elem?-none (x ∷ xs) zero h = cc
get_elem?-none (x ∷ xs) (suc i) h = omega (arith, get_elem?-none xs i h)

module _ (outgoing : Outgoing) where
  -- What holds of the name `k` after the calls `log`.
  record IsVisit (idx : Dict ℕ) (stack : List String) (log : List Edge) (k : String) : Type 0 where
    known : Dict.lookup k idx ≡ none → outgoing_of outgoing k ≡ []
    bounded : at idx k ≤ length (outgoing_of outgoing k)
    visited : ends_of k log ≡ take (at idx k) (outgoing_of outgoing k)
    pending :
        is_reached log k ≡ true
        → (at idx k ≡ length (outgoing_of outgoing k)) ⊎ (contains stack k ≡ true)
    reached : is_reached log k ≡ false → (at idx k ≡ 0) × (contains stack k ≡ false)

  abbrev Invariant : Dict ℕ → List String → List Edge → Type 0
  Invariant idx stack log = (k : String) → IsVisit idx stack log k

  skip :
      (idx : Dict ℕ) (start : String) (stack : List String) (log : List Edge)
      → at idx start ≡ length (outgoing_of outgoing start)
      → (k : String) → IsVisit idx (start ∷ stack) log k
      → IsVisit idx stack log k
  skip idx start stack log full k v = record {
    known = v.known;
    bounded = v.bounded;
    visited = v.visited;
    pending = λ r. ground (arith, v.pending r, eq_iff start k);
    reached = λ r. ground (arith, v.reached r);
  }

  follow :
      (idx : Dict ℕ) (start end : String) (stack : List String) (log : List Edge) (i : ℕ)
      → Dict.lookup start idx ≡ some i
      → get_elem? (outgoing_of outgoing start) i ≡ some end
      → IsVisit idx (start ∷ stack) log start
      → (k : String) → IsVisit idx (start ∷ stack) log k
      → IsVisit
          (Dict.insert start (suc i) idx)
          (push_ends start end (suc i) (length (outgoing_of outgoing start)) stack)
          (log ++ ((start, end) ∷ []))
          k
  unfolding push_ends
  follow idx start end stack log i at_i edge v₀ k v = record {
    known = ground (arith, lookup-insert start k (suc i) idx, eq_iff start k);
    bounded = ground (
      arith,
      lookup-insert start k (suc i) idx,
      eq_iff start k,
      take-suc (outgoing_of outgoing start) i end edge,
    );
    visited = ground (
      arith,
      lookup-insert start k (suc i) idx,
      eq_iff start k,
      take-suc (outgoing_of outgoing start) i end edge,
      ends_of-append k log start end,
    );
    pending = λ r. ground (
      arith,
      lookup-insert start k (suc i) idx,
      eq_iff start k,
      eq_iff end k,
      is_end-append k log start end,
      take-suc (outgoing_of outgoing start) i end edge,
    );
    reached = λ r. ground (
      arith,
      lookup-insert start k (suc i) idx,
      eq_iff start k,
      eq_iff start start,
      eq_iff end k,
      is_end-append k log start end,
    );
  }

  -- Where the loop ends its calls, the reached pods are done and nothing else was called.
  IsDone : List Edge → String → Type 0
  IsDone log k = ends_of k log ≡ (if is_reached log k then outgoing_of outgoing k else [])

  finished : (idx : Dict ℕ) (log : List Edge) (k : String) → IsVisit idx [] log k → IsDone log k
  unfolding IsDone
  finished idx log k v = elim (Bool-cases (is_reached log k)) [
    | inl r ↦ ground (arith, v.pending r, take-all (outgoing_of outgoing k))
    | inr r ↦ ground (arith, v.reached r)
  ]

  calls-IsDone :
      (fuel : ℕ) (idx : Dict ℕ) (stack : List String) (log es : List Edge)
      → Invariant idx stack log
      → calls outgoing fuel idx stack ≡ some es
      → (k : String) → IsDone (log ++ es) k
  unfolding calls
  calls-IsDone zero idx stack log es v h k = cc
  calls-IsDone (suc fuel) idx [] log es v h k =
      let e : [] ≡ es = ground arith in rw (← e, append-nil) (finished idx log k (v k))
  calls-IsDone (suc fuel) idx (start ∷ stack) log es v h k =
      elim (Option-cases (Dict.lookup start idx)) [
        | inl none_left ↦
            calls-IsDone fuel idx stack log es
              (λ j. skip idx start stack log (ground (arith, (v start).known none_left)) j (v j))
              (ground arith) k
        | inr (i, at_i) ↦ elim (Option-cases (get_elem? (outgoing_of outgoing start) i)) [
          | inl done ↦
              calls-IsDone fuel idx stack log es
                (λ j.
                  skip idx start stack log
                    (ground (
                      arith,
                      (v start).bounded,
                      get_elem?-none (outgoing_of outgoing start) i done,
                    ))
                    j (v j))
                (ground arith) k
          | inr (end, edge) ↦
              let idx' = Dict.insert start (suc i) idx in
              let degree = length (outgoing_of outgoing start) in
              let stack' = push_ends start end (suc i) degree stack in
              elim (Option-cases (calls outgoing fuel idx' stack')) [
                | inl out_of_fuel ↦ ground arith
                | inr (rest, later) ↦
                    let e : (start, end) ∷ rest ≡ es = ground arith in
                    let ih =
                      calls-IsDone fuel idx' stack' (log ++ ((start, end) ∷ [])) rest
                        (λ j. follow idx start end stack log i at_i edge (v start) j (v j)) later
                        k in
                    rw (← e) (rw append_assoc at ih)
              ]
        ]
      ]

  lookup-zeros :
      (m : Outgoing) (k : String)
      → (at (zeros m) k ≡ 0) × (Dict.lookup k (zeros m) ≡ none → outgoing_of m k ≡ [])
  unfolding zeros Dict.lookup outgoing_of
  lookup-zeros [] k = (refl, λ h. refl)
  lookup-zeros ((j, ends) ∷ m) k = let (p, q) = lookup-zeros m k in ground (arith, p, q)

  start-Invariant : Invariant (zeros outgoing) ("gateway" ∷ []) []
  start-Invariant k =
      let (p, q) = lookup-zeros outgoing k in
      record {
        known = q;
        bounded = omega (arith, p);
        visited = ground (arith, p);
        pending = λ r. ground arith;
        reached = λ r. ground (arith, p);
      }

  -- The walk always ends, and it runs `func` on a sequence of edges, up to the first exception.
  -- From each pod that is the gateway or the end of an edge of the sequence, the edges of the
  -- sequence are exactly those of the map, each once and in the map's order; from any other name
  -- there are none.
  pub traverse_graph-visits :
      {E S : Type 0} (func : String → String → S → Result E S) (s : S)
      → (es : List Edge) × (traverse_graph outgoing func s ≡ some (run func es s))
        × ((k : String) → ends_of k es ≡ (if is_reached es k then outgoing_of outgoing k else []))
  unfolding traverse_graph IsDone
  traverse_graph-visits func s =
      let (es, p) = calls-total outgoing in
      (es, traverse_loop-run outgoing func _ _ _ s es p, calls-IsDone _ _ _ [] es start-Invariant p)
