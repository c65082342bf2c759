-- ===== src/QuerySet/KeyLaws.antt =====
-- Keys that are joined and split again, and `dunder_get` along a path.
use jina.Prelude.{
  ℕ, zero, suc, ◌<◌, ◌≡◌, ◌≢◌, refl, Bool, false, none, some, List, [], ◌∷◌, ◌++◌, ◌==◌, Result, ok,
  ◌>>=◌, length, arith, Option-cases, Result-cases, inl, inr, All,
}
use jina.Prelude.Text.{Text}
use jina.QuerySet.{Value, LookupError}
use jina.QuerySet.Keys.{
  dunderkey, split_once, rsplit_once, dunder_partition, get_part, dunder_get_fuel, dunder_get,
}

abbrev pub ends_under : Text → Bool
ends_under [] = false
ends_under (c ∷ []) = c == b'_'
ends_under (c ∷ d ∷ s) = ends_under (d ∷ s)

abbrev pub starts_under : Text → Bool
starts_under [] = false
starts_under (c ∷ s) = c == b'_'

-- The first split of `a__rest` is at the end of `a`, if `a` has no double underscore and does not
-- end in an underscore.
pub split_once-join :
    (a rest : Text)
    → split_once a ≡ none
    → ends_under a ≡ false
    → split_once (a ++ (b'_' ∷ b'_' ∷ rest)) ≡ some (a, rest)
unfolding split_once
split_once-join [] rest h e = refl
split_once-join (c ∷ []) rest h e = ground arith
split_once-join (c ∷ d ∷ s) rest h e = elim (Option-cases (split_once (d ∷ s))) [
  | inl plain ↦ ground (arith, split_once-join (d ∷ s) rest plain e)
  | inr (p, split) ↦ absurd (ground arith)
]

-- A split gives the text back.
pub split_once-eq : (k a b : Text) → split_once k ≡ some (a, b) → k ≡ a ++ (b'_' ∷ b'_' ∷ b)
unfolding split_once
split_once-eq [] a b h = cc
split_once-eq (c ∷ []) a b h = cc
split_once-eq (c ∷ d ∷ s) a b h = elim (Option-cases (split_once (d ∷ s))) [
  | inl plain ↦ ground arith
  | inr ((x, y), split) ↦ ground (arith, split_once-eq (d ∷ s) x y split)
]

rsplit_once-eq : (k a b : Text) → rsplit_once k ≡ some (a, b) → k ≡ a ++ (b'_' ∷ b'_' ∷ b)
unfolding rsplit_once
rsplit_once-eq [] a b h = cc
rsplit_once-eq (c ∷ []) a b h = ground arith
rsplit_once-eq (c ∷ d ∷ s) a b h = elim (Option-cases (rsplit_once (d ∷ s))) [
  | inl plain ↦ ground arith
  | inr ((x, y), split) ↦ ground (arith, rsplit_once-eq (d ∷ s) x y split)
]

rsplit_once-join :
    (a b : Text)
    → rsplit_once b ≡ none
    → starts_under b ≡ false
    → rsplit_once (a ++ (b'_' ∷ b'_' ∷ b)) ≡ some (a, b)
unfolding rsplit_once
rsplit_once-join [] [] h e = refl
rsplit_once-join [] (c ∷ s) h e = ground arith
rsplit_once-join (c ∷ a) b h e = ground (arith, rsplit_once-join a b)

split_once-length : (k a b : Text) → split_once k ≡ some (a, b) → length b < length k
unfolding split_once
split_once-length [] a b h = cc
split_once-length (c ∷ []) a b h = cc
split_once-length (c ∷ d ∷ s) a b h = elim (Option-cases (split_once (d ∷ s))) [
  | inl plain ↦ ground arith
  | inr ((x, y), split) ↦ ground (arith, split_once-length (d ∷ s) x y split)
]

-- Any fuel above the length of the key gives the same result.
dunder_get_fuel-eq :
    (f g : ℕ) (v : Value) (k : Text)
    → length k < f
    → length k < g
    → dunder_get_fuel f v k ≡ dunder_get_fuel g v k
unfolding dunder_get_fuel
dunder_get_fuel-eq zero g v k hf hg = absurd (omega arith)
dunder_get_fuel-eq (suc f) zero v k hf hg = absurd (omega arith)
dunder_get_fuel-eq (suc f) (suc g) v k hf hg = elim (Option-cases (split_once k)) [
  | inl whole ↦ ground arith
  | inr ((a, []), split) ↦ ground arith
  | inr ((a, c ∷ b), split) ↦ elim (Result-cases (get_part v a)) [
    | inr (e, bad) ↦ ground arith
    | inl (r, good) ↦
        ground (arith, split_once-length k a (c ∷ b) split, dunder_get_fuel-eq f g r (c ∷ b))
  ]
]

-- The rest of a look-up after its first part: nothing is left to do if the rest is empty.
abbrev pub get_rest : Text → Value → Result LookupError Value
get_rest [] v = ok v
get_rest (c ∷ s) v = dunder_get v (c ∷ s)

-- `dunder_get` recurs as the code does, to the end: it gets the first part of the key, and goes on
-- in the value that this gives with the rest of the key, if there is any.
dunder_get_lem :
    (v : Value) (k : Text)
    → dunder_get v k ≡ elim (split_once k) [
      | none ↦ get_part v k
      | some (part1, part2) ↦ get_part v part1 >>= get_rest part2
    ]
unfolding dunder_get dunder_get_fuel
dunder_get_lem v k = elim (Option-cases (split_once k)) [
  | inl whole ↦ ground arith
  | inr ((a, []), split) ↦ elim (Result-cases (get_part v a)) [
    | inr (e, bad) ↦ ground arith
    | inl (r, good) ↦ ground arith
  ]
  | inr ((a, c ∷ b), split) ↦ elim (Result-cases (get_part v a)) [
    | inr (e, bad) ↦ ground arith
    | inl (r, good) ↦ ground (
      arith,
      split_once-length k a (c ∷ b) split,
      dunder_get_fuel-eq (length k) (suc (length (c ∷ b))) r (c ∷ b),
    )
  ]
]

-- A part of a key that is split off whole: without a double underscore, and with no underscore at
-- its end.
pub record IsPart (a : Text) : Type 0 where
  pub whole : split_once a ≡ none
  pub last : ends_under a ≡ false
  pub given : a ≢ []

-- The value at the end of a path, part by part.
abbrev pub get_path : Value → List Text → Result LookupError Value
get_path v [] = ok v
get_path v (a ∷ path) = get_part v a >>= λ r. get_path r path

dunderkey_given : (a : Text) (path : List Text) → IsPart a → dunderkey (a ∷ path) ≢ []
unfolding dunderkey
dunderkey_given a [] h = h.given
dunderkey_given [] (b ∷ path) h = λ e. h.given refl
dunderkey_given (c ∷ a) (b ∷ path) h = ground arith

get_rest-eq : (s : Text) (v : Value) → s ≢ [] → get_rest s v ≡ dunder_get v s
get_rest-eq [] v h = absurd (h refl)
get_rest-eq (c ∷ s) v h = refl

-- Looking up the key that is joined of the parts of a path is following the path, if no part is
-- empty, has a double underscore, or ends with an underscore.
pub dunder_get-dunderkey :
    (v : Value) (a : Text) (path : List Text)
    → All IsPart (a ∷ path)
    → dunder_get v (dunderkey (a ∷ path)) ≡ get_path v (a ∷ path)
unfolding dunderkey
dunder_get-dunderkey v a [] (h, _) = elim (Result-cases (get_part v a)) [
  | inr (e, bad) ↦ ground (arith, dunder_get_lem v a, h.whole)
  | inl (r, good) ↦ ground (arith, dunder_get_lem v a, h.whole)
]
dunder_get-dunderkey v a (b ∷ path) (h, hs) =
    let rest = dunderkey (b ∷ path) in
    elim (Result-cases (get_part v a)) [
      | inr (e, bad) ↦ ground (
        arith,
        dunder_get_lem v (a ++ (b'_' ∷ b'_' ∷ rest)),
        split_once-join a rest h.whole h.last,
      )
      | inl (r, good) ↦ ground (
        arith,
        dunder_get_lem v (a ++ (b'_' ∷ b'_' ∷ rest)),
        split_once-join a rest h.whole h.last,
        get_rest-eq rest r (dunderkey_given b path hs.0),
        dunder_get-dunderkey r b path hs,
      )
    ]

-- The partition of a joined key gives its last part, if that neither has a double underscore nor
-- begins with an underscore, and the rest of the key before it.
pub dunder_partition-dunderkey :
    (init last : Text)
    → rsplit_once last ≡ none
    → starts_under last ≡ false
    → dunder_partition (dunderkey (init ∷ last ∷ [])) ≡ (init, some last)
unfolding dunder_partition dunderkey
dunder_partition-dunderkey init last h e = ground (arith, rsplit_once-join init last h e)
