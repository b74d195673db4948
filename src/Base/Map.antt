-- ===== src/Base/Map.antt =====
-- Go's maps, as association lists: a lookup finds the first entry of a key, and an assignment replaces
-- it or adds one. Where the code ranges over a map, it sorts what it gathers.
use botbox.Base.Tests.{if◌then◌else◌, Eq, ◌==◌, Bool-cases}
use mathlib.Core.Logic.{◌⊎◌, inl, inr}
use mathlib.Core.Path.{◌≡◌, refl}
use mathlib.Core.Bool.{true}
use mathlib.Core.Option.{Option, none, some, some-injective}
use mathlib.Core.List.{List, [], ◌∷◌}
use native.Mathlib.Omega.{arith}

abbrev pub Map {ℓ κ} : Type ℓ → Type κ → Type (ℓ ⊔ κ)
Map K V = List (K × V)

module _ {ℓ κ} {K : Type ℓ} {V : Type κ} ⦃e : Eq K⦄ where
  unfoldable pub lookup : K → Map K V → Option V
  lookup k [] = none
  lookup k (entry ∷ m) = if entry.0 == k then some entry.1 else lookup k m

  unfoldable pub insert : K → V → Map K V → Map K V
  insert k v [] = (k, v) ∷ []
  insert k v (entry ∷ m) =
      let rest = insert k v m in if entry.0 == k then (k, v) ∷ m else entry ∷ rest

  -- Go's `delete`.
  unfoldable pub erase : K → Map K V → Map K V
  erase k [] = []
  erase k (entry ∷ m) = let rest = erase k m in if entry.0 == k then rest else entry ∷ rest

  pub lookup-erase :
      (gone key : K) (m : Map K V)
      → lookup key (erase gone m) ≡ (if gone == key then none else lookup key m)
  unfolding lookup erase
  lookup-erase k j [] = ground arith
  lookup-erase k j ((i, w) ∷ m) =
      ground (arith, lookup-erase k j m, e.equals_iff i j, e.equals_iff i k, e.equals_iff k j)

  pub lookup-insert :
      (new key : K) (v : V) (m : Map K V)
      → lookup key (insert new v m) ≡ (if new == key then some v else lookup key m)
  unfolding lookup insert
  lookup-insert k j v [] = refl
  lookup-insert k j v ((i, w) ∷ m) =
      ground (arith, lookup-insert k j v m, e.equals_iff i j, e.equals_iff i k, e.equals_iff k j)

module _ {ℓ κ} {K : Type ℓ} {V : Type κ} ⦃e : Eq K⦄ where
  -- What is found after an assignment is what it assigned, or was there.
  pub insert-cases :
      (new key : K) (v w : V) (m : Map K V)
      → lookup key (insert new v m) ≡ some w
      → ((new ≡ key) × (v ≡ w)) ⊎ (lookup key m ≡ some w)
  insert-cases new key v w m h = elim (Bool-cases (new == key)) [
    | inl c ↦
        let i = lookup-insert new key v m in
        inl ((e.equals_iff new key).0 c, some-injective v w (ground arith))
    | inr c ↦ let i = lookup-insert new key v m in inr (ground arith)
  ]

pub beq_refl {ℓ} : {K : Type ℓ} ⦃e : Eq K⦄ (k : K) → (k == k) ≡ true
beq_refl ⦃e⦄ k = (e.equals_iff k k).1 refl
