-- ===== src/QuerySet/NestingLaws.antt =====
-- What `merge` of `undunder_keys` does with one nested key.
use jina.Prelude.{
  ◌≡◌, refl, Bool, true, false, Option, none, some, List, [], ◌∷◌, ok, err, ◌>>=◌, arith, ◌≢◌, ◌∙◌,
  sym, inl, inr, ◌⊎◌, Option-cases, Result-cases,
}
use jina.Prelude.Text.{Text, text_eq, text_eq_iff}
use jina.QuerySet.{Value, dict, Fields, end, field, attribute, find}
use jina.QuerySet.Keys.{rsplit_once, dunder_last, dunder_partition}
use jina.QuerySet.Nesting.{
  dunder_truncate, truncate_from, decide_key, count_last, put_truncated, nest, put_field, merge,
  merge_into_other,
}

text_eq_refl : (s : Text) → text_eq s s ≡ true
text_eq_refl s = (text_eq_iff s s).1 refl

find-put_field : (k : Text) (v : Value) (fs : Fields) → find k (put_field k v fs) ≡ some v
unfolding put_field
find-put_field k v end = ground (arith, text_eq_refl k)
find-put_field k v (field j w fs) = ground (arith, text_eq_refl k, find-put_field k v fs)

find-put_field_other :
    (k j : Text) (v : Value) (fs : Fields)
    → text_eq k j ≡ false
    → find j (put_field k v fs) ≡ find j fs
unfolding put_field
find-put_field_other k j v end h = ground arith
find-put_field_other k j v (field i w fs) h =
    ground (arith, text_eq_iff i k, find-put_field_other k j v fs h)

-- The value at the end of a chain of keys
unfoldable pub follow : Text → List Text → Fields → Option Value
follow k [] d = find k d
follow k (j ∷ ks) d = elim (find k d) [ some (dict inner) ↦ follow j ks inner | _ ↦ none ]

unfoldable pub is_dict : Value → Bool
is_dict (dict fs) = true
is_dict _ = false

merge-not_dict : (d : Fields) (v : Value) → is_dict v ≡ false → merge d v ≡ err attribute
unfolding merge is_dict
merge-not_dict d (dict fs) h = ground arith
merge-not_dict d v h = refl

-- `merge` of a single item, by what the first dict has under its key
merge-item :
    (d : Fields) (k : Text) (v : Value)
    → merge d (dict (field k v end)) ≡ elim (find k d) [
      | none ↦ ok (put_field k v d)
      | some (dict inner) ↦ merge inner v >>= λ merged. ok (put_field k (dict merged) d)
      | some other ↦ merge_into_other v
    ]
unfolding merge
merge-item d k v = refl

merge_into_other-not_ok : (v : Value) (fs : Fields) → merge_into_other v ≢ ok fs
unfolding merge_into_other
merge_into_other-not_ok (dict end) fs h = ground arith
merge_into_other-not_ok (dict (field k v rest)) fs h = ground arith
merge_into_other-not_ok v fs h = ground arith

follow-put_dict :
    (d inner : Fields) (k j : Text) (ks : List Text)
    → follow k (j ∷ ks) (put_field k (dict inner) d) ≡ follow j ks inner
unfolding follow
follow-put_dict d inner k j ks = rw (follow, find-put_field k (dict inner) d) refl

-- The chain of the keys that `nest` makes ends at the value.
follow-nest :
    (d : Fields) (k : Text) (ks : List Text) (v : Value)
    → follow k ks (put_field k (nest ks v) d) ≡ some v
unfolding follow nest put_field
follow-nest d k [] v = find-put_field k v d
follow-nest d k (j ∷ ks) v =
    follow-put_dict d (field j (nest ks v) end) k j ks ∙ follow-nest end j ks v

find-cases :
    (k : Text) (d : Fields)
    → (find k d ≡ none)
      ⊎ ((inner : Fields) × (find k d ≡ some (dict inner)))
      ⊎ ((w : Value) × (find k d ≡ some w) × (is_dict w ≡ false))
unfolding is_dict
find-cases k d = elim (Option-cases (find k d)) [
  | inl free ↦ inl free
  | inr (dict inner, there) ↦ inr (inl (inner, there))
  | inr (w, there) ↦ inr (inr (w, there, refl))
]

merge-item_other :
    (d : Fields) (k : Text) (v w : Value)
    → find k d ≡ some w
    → is_dict w ≡ false
    → merge d (dict (field k v end)) ≡ merge_into_other v
unfolding is_dict merge
merge-item_other d k v (dict fs) there h = ground arith
merge-item_other d k v w there h = ground arith

merge-item_dict :
    (d inner d' : Fields) (k : Text) (v : Value)
    → find k d ≡ some (dict inner)
    → merge d (dict (field k v end)) ≡ ok d'
    → (merged : Fields) × (merge inner v ≡ ok merged) × (d' ≡ put_field k (dict merged) d)
unfolding merge
merge-item_dict d inner d' k v there e = elim (Result-cases (merge inner v)) [
  | inl (merged, good) ↦ (merged, good, ground arith)
  | inr (_, bad) ↦ absurd (ground arith)
]

-- The two ways in which an item is merged: put there, or merged into the dict that is there
merge-item-cases :
    (d d' : Fields) (k : Text) (v : Value)
    → merge d (dict (field k v end)) ≡ ok d'
    → (d' ≡ put_field k v d)
      ⊎ ((inner : Fields) × (merged : Fields) × (merge inner v ≡ ok merged)
          × (d' ≡ put_field k (dict merged) d))
merge-item-cases d d' k v e = elim (find-cases k d) [
  | inl free ↦ let put = merge-item d k v in inl (ground arith)
  | inr (inl (inner, there)) ↦
      let (merged, good, put) = merge-item_dict d inner d' k v there e in
      inr (inner, merged, good, put)
  | inr (inr (w, there, other)) ↦
      absurd (merge_into_other-not_ok v d' (sym (merge-item_other d k v w there other) ∙ e))
]

-- A value that is no dict and is merged under a chain of keys without an exception is found at the
-- end of the chain, whatever the dict held before.
pub merge-nest-follow :
    (d : Fields) (k : Text) (ks : List Text) (v : Value) (d' : Fields)
    → is_dict v ≡ false
    → merge d (nest (k ∷ ks) v) ≡ ok d'
    → follow k ks d' ≡ some v
unfolding nest
merge-nest-follow d k [] v d' h e = elim (merge-item-cases d d' k v e) [
  | inl put ↦ rw put (follow-nest d k [] v)
  | inr (inner, merged, good, put) ↦ let bad = merge-not_dict inner v h in absurd (ground arith)
]
merge-nest-follow d k (j ∷ ks) v d' h e = elim (merge-item-cases d d' k (nest (j ∷ ks) v) e) [
  | inl put ↦ rw put (follow-nest d k (j ∷ ks) v)
  | inr (inner, merged, good, put) ↦
      rw put (follow-put_dict d merged k j ks ∙ merge-nest-follow inner j ks v merged h good)
]

dunder_last-whole : (k : Text) → rsplit_once k ≡ none → dunder_last k ≡ none
unfolding dunder_last dunder_partition
dunder_last-whole k h = ground arith

-- A single key without a double underscore gives the key `None`.
dunder_truncate-whole :
    (k : Text) (v : Value) → rsplit_once k ≡ none → dunder_truncate (field k v end) ≡ (none, v) ∷ []
unfolding dunder_truncate truncate_from decide_key count_last put_truncated
dunder_truncate-whole k v h = ground (arith, dunder_last-whole k h)
