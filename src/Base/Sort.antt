-- ===== src/Base/Sort.antt =====
-- slices.SortFunc and slices.SortStableFunc, as a stable insertion sort by a comparison; the code
-- sorts without stability only where no two entries compare equal.
use Prim.Native.Nat.{Ordering}
use mathlib.Core.Logic.{inl, inr}
use mathlib.Core.Bool.{Bool, true, false}
use mathlib.Core.List.{List, [], ◌∷◌}
use botbox.Base.Tests.{if◌then◌else◌, Bool-cases}
use botbox.Base.Find.{In, here, there}

-- cmp.Or, of comparisons.
abbrev pub or_else : Ordering → Ordering → Ordering
or_else Ordering.eq b = b
or_else Ordering.lt b = Ordering.lt
or_else Ordering.gt b = Ordering.gt

abbrev pub is_lt : Ordering → Bool
is_lt Ordering.lt = true
is_lt _ = false

module _ {ℓ} {A : Type ℓ} where
  -- `x` goes before the first entry that is not less.
  abbrev pub insert_by : (A → A → Bool) → A → List A → List A
  insert_by less x [] = x ∷ []
  insert_by less x (y ∷ ys) =
      let rest = insert_by less x ys in if less y x then y ∷ rest else x ∷ y ∷ ys

  abbrev pub sort_by : (A → A → Bool) → List A → List A
  sort_by less [] = []
  sort_by less (x ∷ xs) = insert_by less x (sort_by less xs)

  In-swap : {a : A} {x y : A} {ys : List A} → In a (x ∷ y ∷ ys) → In a (y ∷ x ∷ ys)
  In-swap (here e) = there (here e)
  In-swap (there (here e)) = here e
  In-swap (there (there m)) = there (there m)

  In-insert_by :
      {a : A} (less : A → A → Bool) (x : A) (ys : List A)
      → In a (x ∷ ys)
      → In a (insert_by less x ys)
  In-insert_by less x [] m = m
  In-insert_by less x (y ∷ ys) m = elim (Bool-cases (less y x)) [
    | inl e ↦ rw e (deeper (In-insert_by less x ys) (In-swap m))
    | inr e ↦ rw e m
  ]
    where
      deeper : {zs ws : List A} {b : A} → (In b zs → In b ws) → In b (y ∷ zs) → In b (y ∷ ws)
      deeper f (here e) = here e
      deeper f (there k) = there (f k)

  -- What is gathered is what is sorted.
  pub In-sort_by : {a : A} (less : A → A → Bool) {xs : List A} → In a xs → In a (sort_by less xs)
  In-sort_by less (here {x = x} {xs = xs} e) = In-insert_by less x (sort_by less xs) (here e)
  In-sort_by less (there {x = x} {xs = xs} m) =
      In-insert_by less x (sort_by less xs) (there (In-sort_by less m))

  In-of_insert_by :
      {a : A} (less : A → A → Bool) (x : A) (ys : List A)
      → In a (insert_by less x ys)
      → In a (x ∷ ys)
  In-of_insert_by less x [] m = m
  In-of_insert_by less x (y ∷ ys) m = by (less y x) m (λ k. In-of_insert_by less x ys k)
    where
      by :
          {b : A} (c : Bool)
          → In b (if c then y ∷ insert_by less x ys else x ∷ y ∷ ys)
          → (In b (insert_by less x ys) → In b (x ∷ ys))
          → In b (x ∷ y ∷ ys)
      by true (here e) ih = there (here e)
      by true (there k) ih = In-swap (there (ih k))
      by false k ih = k

  -- Sorting adds nothing.
  pub In-of_sort_by : {a : A} (less : A → A → Bool) (xs : List A) → In a (sort_by less xs) → In a xs
  In-of_sort_by less [] m = m
  In-of_sort_by less (x ∷ xs) m = elim (In-of_insert_by less x (sort_by less xs) m) [
    | here e ↦ here e
    | there k ↦ there (In-of_sort_by less xs k)
  ]
