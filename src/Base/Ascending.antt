-- ===== src/Base/Ascending.antt =====
-- A list sorted by a number, and searches of a sorted list.
use mathlib.Core.Path.{◌≡◌, refl, ap, ◌∙◌}
use mathlib.Core.Bool.{Bool, true}
use mathlib.Core.Option.{none, some}
use mathlib.Core.List.{List, [], ◌∷◌}
use Prim.Native.Nat.{ℕ, ◌≤◌}
use native.Mathlib.Omega.{arith}
use botbox.Base.Tests.{if◌then◌else◌, if-cases, ltb}
use botbox.Base.Find.{find?}
use botbox.Base.Sort.{insert_by, sort_by}

module _ {ℓ} {A : Type ℓ} where
  module _ (f : A → ℕ) where
    abbrev by_number : A → A → Bool
    by_number a b = ltb (f a) (f b)

    abbrev pub AreAtLeast : ℕ → List A → Type 0
    AreAtLeast n [] = Unit
    AreAtLeast n (x ∷ xs) = (n ≤ f x) × AreAtLeast n xs

    abbrev pub IsAscending : List A → Type 0
    IsAscending [] = Unit
    IsAscending (x ∷ xs) = AreAtLeast (f x) xs × IsAscending xs

    pub AreAtLeast-le : (m n : ℕ) (xs : List A) → m ≤ n → AreAtLeast n xs → AreAtLeast m xs
    AreAtLeast-le m n [] h k = tt
    AreAtLeast-le m n (x ∷ xs) h (i, k) = (omega arith, AreAtLeast-le m n xs h k)

    AreAtLeast-insert_by :
        (n : ℕ) (x : A) (ys : List A)
        → n ≤ f x
        → AreAtLeast n ys
        → AreAtLeast n (insert_by by_number x ys)
    AreAtLeast-insert_by n x [] h k = (h, k)
    AreAtLeast-insert_by n x (y ∷ ys) h (i, k) =
        if-cases (AreAtLeast n) (by_number y x) (y ∷ insert_by by_number x ys) (x ∷ y ∷ ys)
          (λ e. (i, AreAtLeast-insert_by n x ys h k)) (λ e. (h, (i, k)))

    insert_by-IsAscending :
        (x : A) (ys : List A) → IsAscending ys → IsAscending (insert_by by_number x ys)
    insert_by-IsAscending x [] h = (tt, tt)
    insert_by-IsAscending x (y ∷ ys) (i, h) =
        if-cases IsAscending (by_number y x) (y ∷ insert_by by_number x ys) (x ∷ y ∷ ys)
          (λ e. (AreAtLeast-insert_by (f y) x ys (ground arith) i, insert_by-IsAscending x ys h))
          (λ e.
            let le : f x ≤ f y = ground arith in ((le, AreAtLeast-le (f x) (f y) ys le i), (i, h)))

    pub sort_by-IsAscending : (xs : List A) → IsAscending (sort_by (λ a b. ltb (f a) (f b)) xs)
    sort_by-IsAscending [] = tt
    sort_by-IsAscending (x ∷ xs) =
        insert_by-IsAscending x (sort_by by_number xs) (sort_by-IsAscending xs)

  -- One entry at most passes the test.
  abbrev pub IsOnly : (A → Bool) → List A → Type ℓ
  IsOnly p [] = Unit
  IsOnly p (x ∷ xs) = (p x ≡ true → find? xs p ≡ none) × IsOnly p xs

  module _ (p : A → Bool) (less : A → A → Bool) where
    find?-insert_by :
        (x : A) (ys : List A)
        → (p x ≡ true → find? ys p ≡ none)
        → find? (insert_by less x ys) p ≡ find? (x ∷ ys) p
    find?-insert_by x [] h = refl
    find?-insert_by x (y ∷ ys) h =
        if-cases (λ l. find? l p ≡ find? (x ∷ y ∷ ys) p) (less y x) (y ∷ insert_by less x ys)
          (x ∷ y ∷ ys) (λ e. ground (arith, find?-insert_by x ys)) (λ e. refl)

    -- Then it is found wherever sorting puts it.
    pub find?-sort_by : (xs : List A) → IsOnly p xs → find? (sort_by less xs) p ≡ find? xs p
    find?-sort_by [] h = refl
    find?-sort_by (x ∷ xs) (h, k) =
        let e = find?-sort_by xs k in
        find?-insert_by x (sort_by less xs) (λ q. e ∙ h q) ∙ ap (λ o. if p x then some x else o) e
