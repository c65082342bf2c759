-- ===== src/Prelude/Dict.antt =====
-- Python dicts with string keys in insertion order: a write to a present key keeps its place.
use mathlib.Core.Path.{◌≡◌, refl}
use mathlib.Core.Bool.{Bool, true, false, ◌||◌}
use mathlib.Core.List.{List, [], ◌∷◌, map}
use mathlib.Core.Option.{Option, none, some}
use Prim.Native.Nat.{◌+◌}
use Prim.Native.String.{String}
use native.Mathlib.Omega.{arith}
use text.Mathlib.Text.{◌==◌}
use text.Mathlib.TextEquality.{eq_iff}
use mathlib.Core.Logic.{inl, inr}
use jina.Prelude.Tests.{if◌then◌else◌, Bool-cases}
use jina.Prelude.Lists.{length}

abbrev pub Dict {ℓ} : Type ℓ → Type ℓ
Dict V = List (String × V)

-- `x in xs` for a list or a set of strings
abbrev pub contains : List String → String → Bool
contains [] k = false
contains (x ∷ xs) k = x == k || contains xs k

module _ {ℓ} {V : Type ℓ} where
  -- `items.get(key)`
  unfoldable pub lookup : String → Dict V → Option V
  lookup key [] = none
  lookup key ((name, value) ∷ items) = if name == key then some value else lookup key items

  abbrev pub keys : Dict V → List String
  keys = map (λ (k, _). k)

  abbrev pub values : Dict V → List V
  values = map (λ (_, v). v)

  -- `items[key] = value`
  unfoldable pub insert : String → V → Dict V → Dict V
  insert key value [] = (key, value) ∷ []
  insert key value ((name, old) ∷ items) =
      if name == key then (name, value) ∷ items else (name, old) ∷ insert key value items

  pub lookup-insert :
      (key other : String) (value : V) (items : Dict V)
      → lookup other (insert key value items)
        ≡ (if key == other then some value else lookup other items)
  unfolding lookup insert
  lookup-insert key other value [] = refl
  lookup-insert key other value ((name, old) ∷ items) = ground (
    arith,
    lookup-insert key other value items,
    eq_iff key other,
    eq_iff name key,
    eq_iff name other,
  )

  -- `del items[key]`
  unfoldable pub remove : String → Dict V → Dict V
  remove key [] = []
  remove key ((name, value) ∷ items) =
      let rest = remove key items in if name == key then rest else (name, value) ∷ rest

  pub lookup-remove :
      (key other : String) (items : Dict V)
      → lookup other (remove key items) ≡ (if key == other then none else lookup other items)
  unfolding lookup remove
  lookup-remove key other [] = ground arith
  lookup-remove key other ((name, value) ∷ items) =
      ground
        (arith, lookup-remove key other items, eq_iff name key, eq_iff key other, eq_iff name other)

  pub length-insert_new :
      (k : String) (v : V) (m : Dict V) → lookup k m ≡ none → length (insert k v m) ≡ length m + 1
  unfolding lookup insert
  length-insert_new k v [] h = omega arith
  length-insert_new k v ((i, w) ∷ m) h = ground (arith, length-insert_new k v m)

  pub length-insert_old :
      (k : String) (v : V) (m : Dict V)
      → contains (keys m) k ≡ true
      → length (insert k v m) ≡ length m
  unfolding insert
  length-insert_old k v [] h = cc
  length-insert_old k v ((i, w) ∷ m) h = ground (arith, length-insert_old k v m)

  pub contains-keys-insert :
      (k j : String) (v : V) (m : Dict V)
      → contains (keys (insert k v m)) j ≡ (k == j || contains (keys m) j)
  unfolding insert
  contains-keys-insert k j v [] = refl
  contains-keys-insert k j v ((i, w) ∷ m) =
      ground (arith, eq_iff k j, eq_iff i k, eq_iff i j, contains-keys-insert k j v m)

  abbrev pub is_some : Option V → Bool
  is_some none = false
  is_some (some v) = true

  pub contains-keys : (m : Dict V) (k : String) → contains (keys m) k ≡ is_some (lookup k m)
  unfolding lookup
  contains-keys [] k = refl
  contains-keys ((j, v) ∷ m) k = ground (arith, contains-keys m k)

  -- No key is listed twice.
  abbrev pub NodupKeys : Dict V → Type 0
  NodupKeys [] = Unit
  NodupKeys ((k, v) ∷ m) = (contains (keys m) k ≡ false) × NodupKeys m

  pub insert-NodupKeys : (k : String) (v : V) (m : Dict V) → NodupKeys m → NodupKeys (insert k v m)
  unfolding insert
  insert-NodupKeys k v [] u = (refl, tt)
  insert-NodupKeys k v ((j, w) ∷ m) (fresh, u) = elim (Bool-cases (j == k)) [
    | inl same ↦ rw same (fresh, u)
    | inr other ↦ rw other (
      ground (arith, contains-keys-insert k j v m, eq_iff k j, eq_iff j k),
      insert-NodupKeys k v m u,
    )
  ]
