-- ===== src/Base/Keyed.antt =====
-- Maps whose values carry their keys, and searches of what passes among the values.
use mathlib.Core.Path.{◌≡◌, refl, ap, sym, ◌∙◌}
use mathlib.Core.Bool.{Bool, true, false}
use mathlib.Core.Option.{Option, none, some}
use mathlib.Core.List.{List, [], ◌∷◌, map}
use native.Mathlib.Omega.{arith}
use botbox.Base.Tests.{if◌then◌else◌, if-cases, Eq, ◌==◌}
use botbox.Base.Find.{find?, filter_by, In, here, there}
use botbox.Base.Map.{Map, lookup, insert, lookup-insert}
use botbox.Base.Ascending.{IsOnly}

-- A value that passes, or none.
abbrev pub if_kept {ℓ} : {V : Type ℓ} → (V → Bool) → Option V → Option V
if_kept keep none = none
if_kept keep (some v) = if keep v then some v else none

module _ {ℓ κ} {K : Type ℓ} {V : Type κ} ⦃e : Eq K⦄ (key_of : V → K) where
  -- Each value stands under its key, each key once.
  abbrev pub AreKeyed : Map K V → Type (ℓ ⊔ κ)
  AreKeyed [] = Unit
  AreKeyed (entry ∷ m) = (key_of entry.1 ≡ entry.0) × (lookup entry.0 m ≡ none) × AreKeyed m

  pub insert-AreKeyed : (v : V) (m : Map K V) → AreKeyed m → AreKeyed (insert (key_of v) v m)
  unfolding insert lookup
  insert-AreKeyed v [] h = (refl, refl, tt)
  insert-AreKeyed v ((k, w) ∷ m) (q, u, h) =
      if-cases AreKeyed (k == key_of v) ((key_of v, v) ∷ m) ((k, w) ∷ insert (key_of v) v m)
        (λ c. (refl, ap (λ key. lookup key m) (sym ((e.equals_iff k (key_of v)).0 c)) ∙ u, h))
        (λ c.
          let fresh = lookup-insert (key_of v) k v m in
          let other = e.equals_iff (key_of v) k in
          let same = e.equals_iff k (key_of v) in (q, ground arith, insert-AreKeyed v m h))

  -- Each value is found under its key.
  pub lookup-In :
      (v : V) (m : Map K V)
      → AreKeyed m
      → In v (map (λ entry. entry.1) m)
      → lookup (key_of v) m ≡ some v
  unfolding lookup
  lookup-In v [] h n = elim n [ ]
  lookup-In v ((k, w) ∷ m) (q, u, h) (here c) =
      let same = e.equals_iff k (key_of v) in
      let under : k ≡ key_of v = sym (ap key_of c ∙ q) in
      let is : some w ≡ some v = ap some (sym c) in ground arith
  lookup-In v ((k, w) ∷ m) (q, u, h) (there n) =
      let found = lookup-In v m h n in
      let same = e.equals_iff k (key_of v) in
      let gone = λ (c : k ≡ key_of v). ap (λ k'. lookup k' m) (sym c) ∙ u in ground arith

  module _ (keep : V → Bool) where
    abbrev pub kept : Map K V → List V
    kept m = filter_by keep (map (λ entry. entry.1) m)

    pub find?-kept :
        (key : K) (m : Map K V)
        → AreKeyed m
        → find? (kept m) (λ v. key_of v == key) ≡ if_kept keep (lookup key m)
    unfolding lookup
    find?-kept key [] h = refl
    find?-kept key ((k, w) ∷ m) (q, u, h) =
        let rest = find?-kept key m h in
        let gone =
          λ (c : (k == key) ≡ true). ap (λ k'. lookup k' m) (sym ((e.equals_iff k key).0 c)) ∙ u in
        let same : (key_of w == key) ≡ (k == key) = ap (λ k'. k' == key) q in
        by (keep w) refl (k == key) refl rest gone same
      where
        by :
            (b : Bool)
            → keep w ≡ b
            → (c : Bool) → (k == key) ≡ c
            → find? (kept m) (λ v. key_of v == key) ≡ if_kept keep (lookup key m)
            → ((k == key) ≡ true → lookup key m ≡ none)
            → (key_of w == key) ≡ (k == key)
            → find? (kept ((k, w) ∷ m)) (λ v. key_of v == key)
              ≡ if_kept keep (if k == key then some w else lookup key m)
        by true p true r rest gone same = rw (p, same, r, p) refl
        by true p false r rest gone same = rw (p, same, r) rest
        by false p true r rest gone same = rw (r, p) (rest ∙ ap (if_kept keep) (gone r))
        by false p false r rest gone same = rw (r, p) rest

    pub kept-IsOnly : (key : K) (m : Map K V) → AreKeyed m → IsOnly (λ v. key_of v == key) (kept m)
    kept-IsOnly key [] h = tt
    kept-IsOnly key ((k, w) ∷ m) (q, u, h) =
        let rest = find?-kept key m h in
        if-cases (IsOnly (λ v. key_of v == key)) (keep w) (w ∷ kept m) (kept m)
          (λ c. (
            (λ d.
                rest
                ∙ ap (λ k'. if_kept keep (lookup k' m))
                    (sym ((e.equals_iff (key_of w) key).0 d) ∙ q)
                ∙ ap (if_kept keep) u),
            kept-IsOnly key m h,
          ))
          (λ c. kept-IsOnly key m h)
