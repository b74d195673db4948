-- ===== src/Base/Find.antt =====
-- Searches of a list by a Boolean test, as Go's package slices has them, and predicates on all
-- entries that compute.
use mathlib.Core.Path.{◌≡◌, refl, sym, ap, subst, ◌∙◌}
use mathlib.Core.Logic.{◌⊎◌, inl, inr}
use mathlib.Core.Bool.{Bool, true, false, ◌||◌, ◌&&◌}
use mathlib.Core.Option.{Option, none, some, some-injective}
use mathlib.Core.List.{List, [], ◌∷◌, ◌++◌, map}
use Prim.Native.Nat.{ℕ, zero, suc}
use botbox.Base.Lists.{get_elem?, update}
use native.Mathlib.Omega.{arith}
use botbox.Base.Tests.{if◌then◌else◌, Bool-cases, Eq, ◌==◌}

module _ {ℓ} {A : Type ℓ} where
  -- slices.ContainsFunc
  abbrev pub any : List A → (A → Bool) → Bool
  any [] p = false
  any (x ∷ xs) p = p x || any xs p

  abbrev pub all : List A → (A → Bool) → Bool
  all [] p = true
  all (x ∷ xs) p = p x && all xs p

  -- The entries a loop keeps; slices.DeleteFunc keeps those that fail its test.
  abbrev pub filter_by : (A → Bool) → List A → List A
  filter_by p [] = []
  filter_by p (x ∷ xs) = let rest = filter_by p xs in if p x then x ∷ rest else rest

  -- The first entry that passes.
  abbrev pub find? : List A → (A → Bool) → Option A
  find? [] p = none
  find? (x ∷ xs) p = if p x then some x else find? xs p

  abbrev pub All {κ} : (A → Type κ) → List A → Type κ
  All P [] = Unit
  All P (x ∷ xs) = P x × All P xs

  -- An entry of a list, as data: where it stands.
  pub data In (a : A) : List A → Type ℓ where
    here : {x : A} {xs : List A} → a ≡ x → In a (x ∷ xs)
    there : {x : A} {xs : List A} → In a xs → In a (x ∷ xs)

  pub any→In : (xs : List A) (p : A → Bool) → any xs p ≡ true → (a : A) × In a xs × (p a ≡ true)
  any→In [] p h = absurd (ground arith)
  any→In (x ∷ xs) p h = elim (Bool-cases (p x)) [
    | inl e ↦ (x, here refl, e)
    | inr e ↦ let (a, m, k) = any→In xs p (ground arith) in (a, there m, k)
  ]

  pub In→any : {a : A} {xs : List A} (p : A → Bool) → In a xs → p a ≡ true → any xs p ≡ true
  In→any p (here e) h = ground arith
  In→any p (there m) h = ground (arith, In→any p m h)

  pub any-none : {a : A} {xs : List A} (p : A → Bool) → any xs p ≡ false → In a xs → p a ≡ false
  any-none p h (here e) = ground arith
  any-none p h (there m) = any-none p (ground arith) m

  -- What is found is there, and passes.
  pub find?-In : (xs : List A) (p : A → Bool) {a : A} → find? xs p ≡ some a → In a xs × (p a ≡ true)
  find?-In [] p h = absurd (ground arith)
  find?-In (x ∷ xs) p h = elim (Bool-cases (p x)) [
    | inl e ↦ let q : x ≡ _ = some-injective _ _ (ground arith) in (here (sym q), ap p (sym q) ∙ e)
    | inr e ↦ let (m, k) = find?-In xs p (ground arith) in (there m, k)
  ]

  pub none-any : (xs : List A) (p : A → Bool) → ((a : A) → In a xs → p a ≡ false) → any xs p ≡ false
  none-any [] p h = refl
  none-any (x ∷ xs) p h =
      let first = h x (here refl) in let rest = none-any xs p (λ a m. h a (there m)) in ground arith

  pub In-append_new : (xs : List A) (a : A) → In a (xs ++ a ∷ [])
  In-append_new [] a = here refl
  In-append_new (x ∷ xs) a = there (In-append_new xs a)

  pub In-append_old : {a : A} {xs : List A} (ys : List A) → In a xs → In a (xs ++ ys)
  In-append_old ys (here e) = here e
  In-append_old ys (there m) = there (In-append_old ys m)

  pub In-append_cases : {a : A} (xs : List A) (y : A) → In a (xs ++ y ∷ []) → In a xs ⊎ (a ≡ y)
  In-append_cases [] y (here e) = inr e
  In-append_cases [] y (there m) = elim m [ ]
  In-append_cases (x ∷ xs) y (here e) = inl (here e)
  In-append_cases (x ∷ xs) y (there m) = elim (In-append_cases xs y m) [
    | inl k ↦ inl (there k)
    | inr e ↦ inr e
  ]

  pub In-append_split : {a : A} (xs ys : List A) → In a (xs ++ ys) → In a xs ⊎ In a ys
  In-append_split [] ys m = inr m
  In-append_split (x ∷ xs) ys (here e) = inl (here e)
  In-append_split (x ∷ xs) ys (there m) = elim (In-append_split xs ys m) [
    | inl k ↦ inl (there k)
    | inr k ↦ inr k
  ]

  pub In-append_right : {a : A} (xs : List A) {ys : List A} → In a ys → In a (xs ++ ys)
  In-append_right [] m = m
  In-append_right (x ∷ xs) m = there (In-append_right xs m)

  -- What a conditional entry is.
  pub In-if_one :
      {a : A} (b : Bool) (x : A) → In a (if b then x ∷ [] else []) → (a ≡ x) × (b ≡ true)
  In-if_one true x (here e) = (e, refl)
  In-if_one true x (there m) = elim m [ ]
  In-if_one false x m = elim m [ ]

  In-if :
      {a : A} (b : Bool) (x : A) (rest : List A)
      → In a (if b then x ∷ rest else rest)
      → In a rest ⊎ ((a ≡ x) × (b ≡ true))
  In-if true x rest (here q) = inr (q, refl)
  In-if true x rest (there m) = inl m
  In-if false x rest m = inl m

  -- Membership in what a loop kept.
  pub In-filter_by :
      {a : A} (p : A → Bool) (xs : List A) → In a (filter_by p xs) → In a xs × (p a ≡ true)
  In-filter_by p [] m = elim m [ ]
  In-filter_by p (x ∷ xs) m = elim (In-if (p x) x (filter_by p xs) m) [
    | inl k ↦ let (old, h) = In-filter_by p xs k in (there old, h)
    | inr (q, h) ↦ (here q, ap p q ∙ h)
  ]

  In-if_true :
      {a : A} (b : Bool) (x : A) (rest : List A) → In a rest → In a (if b then x ∷ rest else rest)
  In-if_true true x rest m = there m
  In-if_true false x rest m = m

  In-if_here :
      {a : A} (b : Bool) (x : A) (rest : List A)
      → a ≡ x
      → b ≡ true
      → In a (if b then x ∷ rest else rest)
  In-if_here true x rest q h = here q
  In-if_here false x rest q h = absurd (ground arith)

  pub filter_by-In :
      {a : A} {xs : List A} (p : A → Bool) → In a xs → p a ≡ true → In a (filter_by p xs)
  filter_by-In p (here {x = x} {xs = xs} q) h =
      In-if_here (p x) x (filter_by p xs) q (ap p (sym q) ∙ h)
  filter_by-In p (there {x = x} {xs = xs} m) h =
      In-if_true (p x) x (filter_by p xs) (filter_by-In p m h)

  pub filter_by-append :
      (p : A → Bool) (xs ys : List A) → filter_by p (xs ++ ys) ≡ filter_by p xs ++ filter_by p ys
  filter_by-append p [] ys = refl
  filter_by-append p (x ∷ xs) ys = elim (Bool-cases (p x)) [
    | inl e ↦ rw (e, filter_by-append p xs ys)
    | inr e ↦ rw (e, filter_by-append p xs ys)
  ]

  module _ {κ} (P : A → Type κ) where
    pub All-append : (xs ys : List A) → All P xs → All P ys → All P (xs ++ ys)
    All-append [] ys h k = k
    All-append (x ∷ xs) ys (p, h) k = (p, All-append xs ys h k)

    pub All-map :
        (f : A → A) (xs : List A) → ((x : A) → P x → P (f x)) → All P xs → All P (map f xs)
    All-map f [] keep h = tt
    All-map f (x ∷ xs) keep (p, h) = (keep x p, All-map f xs keep h)

    pub All-update :
        (xs : List A) (i : ℕ) (f : A → A)
        → ((x : A) → P x → P (f x))
        → All P xs
        → All P (update xs i f)
    All-update [] i f keep h = tt
    All-update (x ∷ xs) zero f keep (p, h) = (keep x p, h)
    All-update (x ∷ xs) (suc i) f keep (p, h) = (p, All-update xs i f keep h)

    pub All-get_elem? : (xs : List A) (i : ℕ) {a : A} → get_elem? xs i ≡ some a → All P xs → P a
    All-get_elem? [] i e h = absurd (ground arith)
    All-get_elem? (x ∷ xs) zero e (p, h) = subst P (some-injective _ _ e) p
    All-get_elem? (x ∷ xs) (suc i) e (p, h) = All-get_elem? xs i e h

    pub All-In : {a : A} (xs : List A) → All P xs → In a xs → P a
    All-In [] h m = elim m [ ]
    All-In (x ∷ xs) (p, h) (here e) = subst P (sym e) p
    All-In (x ∷ xs) (p, h) (there m) = All-In xs h m

module _ {ℓ κ} {A : Type ℓ} {B : Type κ} where
  pub In-map_of : {a : A} {b : B} {xs : List A} (f : A → B) → In a xs → b ≡ f a → In b (map f xs)
  In-map_of f (here q) e = here (e ∙ ap f q)
  In-map_of f (there m) e = there (In-map_of f m e)

  pub In-map : {b : B} (f : A → B) (xs : List A) → In b (map f xs) → (a : A) × In a xs × (b ≡ f a)
  In-map f [] m = elim m [ ]
  In-map f (x ∷ xs) (here e) = (x, here refl, e)
  In-map f (x ∷ xs) (there m) = let (a, k, e) = In-map f xs m in (a, there k, e)

module _ {ℓ} {A : Type ℓ} ⦃e : Eq A⦄ where
  -- slices.Contains
  abbrev pub contains : List A → A → Bool
  contains xs a = any xs (λ x. x == a)
