-- ===== src/Drivers/RankOrder.antt =====
-- Rows of hashes and scores, and what `np.sort` by the score makes of them.
use jina.Prelude.{◌≡◌, refl, Bool, false, List, [], ◌∷◌, ◌++◌, length, select, All, arith}
use jina.Prelude.Int.{ℤ}
use jina.Drivers.Rank.{backwards}

module _ {S : Type 0} where
  -- No later score is above an earlier one, and none below.
  abbrev pub Descends : (S → S → Bool) → List (ℤ × S) → Type 0
  Descends less [] = Unit
  Descends less (x ∷ xs) = All (λ y. less x.1 y.1 ≡ false) xs × Descends less xs

  abbrev pub Ascends : (S → S → Bool) → List (ℤ × S) → Type 0
  Ascends less [] = Unit
  Ascends less (x ∷ xs) = All (λ y. less y.1 x.1 ≡ false) xs × Ascends less xs

  -- The rows of the one list are those of the other, each as often.
  abbrev pub SameRows : List (ℤ × S) → List (ℤ × S) → Type 0
  SameRows xs ys = (p : ℤ × S → Bool) → length (select p xs) ≡ length (select p ys)

  -- What `np.sort` by the score does: the rows stay the same and their scores ascend.
  pub record IsSort (less : S → S → Bool) (np_sort : List (ℤ × S) → List (ℤ × S)) : Type 1 where
    pub kept : (P : ℤ × S → Type 0) (xs : List (ℤ × S)) → All P xs → All P (np_sort xs)
    pub same : (xs : List (ℤ × S)) → SameRows (np_sort xs) xs
    pub ascends : (xs : List (ℤ × S)) → Ascends less (np_sort xs)

  All-snoc :
      (P : ℤ × S → Type 0) (x : ℤ × S) (xs : List (ℤ × S)) → P x → All P xs → All P (xs ++ (x ∷ []))
  All-snoc P x [] h hs = (h, tt)
  All-snoc P x (y ∷ ys) h (hy, hs) = (hy, All-snoc P x ys h hs)

  pub All-backwards : (P : ℤ × S → Type 0) (xs : List (ℤ × S)) → All P xs → All P (backwards xs)
  unfolding backwards
  All-backwards P [] h = tt
  All-backwards P (x ∷ xs) (h, hs) = All-snoc P x (backwards xs) h (All-backwards P xs hs)

  snoc-Descends :
      (less : S → S → Bool) (x : ℤ × S) (xs : List (ℤ × S))
      → Descends less xs
      → All (λ y. less y.1 x.1 ≡ false) xs
      → Descends less (xs ++ (x ∷ []))
  snoc-Descends less x [] h hs = (tt, tt)
  snoc-Descends less x (y ∷ ys) (hy, h) (below, hs) =
      (All-snoc (λ z. less y.1 z.1 ≡ false) x ys below hy, snoc-Descends less x ys h hs)

  pub backwards-Descends :
      (less : S → S → Bool) (xs : List (ℤ × S)) → Ascends less xs → Descends less (backwards xs)
  unfolding backwards
  backwards-Descends less [] h = tt
  backwards-Descends less (x ∷ xs) (above, h) =
      snoc-Descends less x (backwards xs) (backwards-Descends less xs h)
        (All-backwards (λ y. less y.1 x.1 ≡ false) xs above)

  select-snoc :
      (p : ℤ × S → Bool) (x : ℤ × S) (xs : List (ℤ × S))
      → length (select p (xs ++ (x ∷ []))) ≡ length (select p (x ∷ xs))
  select-snoc p x [] = refl
  select-snoc p x (y ∷ ys) = ground (arith, select-snoc p x ys)

  pub backwards-SameRows : (xs : List (ℤ × S)) → SameRows (backwards xs) xs
  unfolding backwards
  backwards-SameRows [] p = refl
  backwards-SameRows (x ∷ xs) p =
      ground (arith, select-snoc p x (backwards xs), backwards-SameRows xs p)
