-- ===== src/Base/Action/Keeps.antt =====
-- What a method keeps of the state, whether it returns or fails, and what its errors are: a rule for each
-- way to build one.
use mathlib.Core.Path.{◌≡◌, refl}
use mathlib.Core.Bool.{Bool, true, false}
use mathlib.Core.Option.{Option, none, some}
use mathlib.Core.List.{List, [], ◌∷◌}
use botbox.Base.Tests.{if◌then◌else◌}
use botbox.Base.Action.{
  Result, ok, err, Action, pure, raise, raise?, continue, ◌>>=◌, ◌>>◌, attempt, attempt_get, reword,
  when, for_each,
}

abbrev pub OnError : {E A : Type 0} → (E → Type 0) → Result E A → Type 0
OnError Q (ok a) = Unit
OnError Q (err e) = Q e

-- The method keeps `P`, and an error of it is one of `Q`.
pub record Keeps {S E A : Type 0} (P : S → Type 0) (Q : E → Type 0) (m : Action S E A)
    : Type 0 where
  pub at : (s : S) → P s → OnError Q (m s).0 × P (m s).1

module _ {S E : Type 0} {P : S → Type 0} {Q : E → Type 0} where
  pub Keeps-pure : {A : Type 0} (a : A) → Keeps P Q (pure a)
  unfolding pure
  Keeps-pure a = record { at = λ s h. (tt, h) }

  pub Keeps-raise : {A : Type 0} (e : E) → Q e → Keeps P Q (raise {A = A} e)
  unfolding raise
  Keeps-raise e q = record { at = λ s h. (q, h) }

  pub Keeps-raise? : (o : Option E) → ((e : E) → o ≡ some e → Q e) → Keeps P Q (raise? o)
  unfolding raise?
  Keeps-raise? none q = record { at = λ s h. (tt, h) }
  Keeps-raise? (some e) q = record { at = λ s h. (q e refl, h) }

  Keeps-continue :
      {A B : Type 0} (r : Result E A) (f : A → Action S E B) (s : S)
      → OnError Q r × P s
      → ((a : A) → Keeps P Q (f a))
      → OnError Q (continue r f s).0 × P (continue r f s).1
  Keeps-continue (ok a) f s h k = (k a).at s h.1
  Keeps-continue (err e) f s h k = h

  pub Keeps-bind :
      {A B : Type 0} (m : Action S E A) (f : A → Action S E B)
      → Keeps P Q m
      → ((a : A) → Keeps P Q (f a))
      → Keeps P Q (m >>= f)
  unfolding ◌>>=◌
  Keeps-bind m f h k = record {
    at = λ s p. let (r, s') = m s in Keeps-continue r f s' (h.at s p) k;
  }

  pub Keeps-then :
      {B : Type 0} (m : Action S E (Unit {0})) (k : Action S E B)
      → Keeps P Q m
      → Keeps P Q k
      → Keeps P Q (m >> k)
  Keeps-then m k h j = Keeps-bind m (λ _. k) h (λ _. j)

  pub Keeps-attempt : (m : Action S E (Unit {0})) → Keeps P Q m → Keeps P Q (attempt m)
  unfolding attempt
  Keeps-attempt m h = record { at = λ s p. (tt, (h.at s p).1) }

  pub Keeps-attempt_get : {A : Type 0} (m : Action S E A) → Keeps P Q m → Keeps P Q (attempt_get m)
  unfolding attempt_get
  Keeps-attempt_get m h = record { at = λ s p. (tt, (h.at s p).1) }

  pub Keeps-reword :
      (f : Result E (Unit {0}) → Result E (Unit {0})) (m : Action S E (Unit {0}))
      → Keeps P Q m
      → ((r : Result E (Unit {0})) → OnError Q r → OnError Q (f r))
      → Keeps P Q (reword f m)
  unfolding reword
  Keeps-reword f m h k = record { at = λ s p. (k (m s).0 (h.at s p).0, (h.at s p).1) }

  pub Keeps-when :
      (b : Bool) (m : Action S E (Unit {0})) → (b ≡ true → Keeps P Q m) → Keeps P Q (when b m)
  unfolding when
  Keeps-when true m h = h refl
  Keeps-when false m h = Keeps-pure tt

  pub Keeps-if :
      {A : Type 0} (b : Bool) (m n : Action S E A)
      → (b ≡ true → Keeps P Q m)
      → (b ≡ false → Keeps P Q n)
      → Keeps P Q (if b then m else n)
  Keeps-if true m n h k = h refl
  Keeps-if false m n h k = k refl

  pub Keeps-for_each :
      {A : Type 0} (xs : List A) (f : A → Action S E (Unit {0}))
      → ((a : A) → Keeps P Q (f a))
      → Keeps P Q (for_each xs f)
  unfolding for_each
  Keeps-for_each [] f h = Keeps-pure tt
  Keeps-for_each (x ∷ xs) f h =
      Keeps-bind (f x) (λ _. for_each xs f) (h x) (λ _. Keeps-for_each xs f h)

-- Where a method ends: in `R` if it returns, in `R'` if it fails.
abbrev pub Ends : {S E A : Type 0} → (S → Type 0) → (S → Type 0) → Result E A → S → Type 0
Ends R R' (ok a) s = R s
Ends R R' (err e) s = R' s

-- From a state of `P`, the method ends so.
pub record Leads {S E A : Type 0} (P R R' : S → Type 0) (m : Action S E A) : Type 0 where
  pub at : (s : S) → P s → Ends R R' (m s).0 (m s).1

module _ {S E : Type 0} {R R' : S → Type 0} where
  Leads-continue :
      {A B : Type 0} (M : S → Type 0) (r : Result E A) (f : A → Action S E B) (s : S)
      → Ends M R' r s
      → ((a : A) → Leads M R R' (f a))
      → Ends R R' (continue r f s).0 (continue r f s).1
  Leads-continue M (ok a) f s h k = (k a).at s h
  Leads-continue M (err e) f s h k = h

  Ends-both :
      {P : S → Type 0} {A : Type 0} (r : Result E A) (s : S)
      → P s
      → ((s : S) → P s → R s)
      → ((s : S) → P s → R' s)
      → Ends R R' r s
  Ends-both (ok a) s p h k = h s p
  Ends-both (err e) s p h k = k s p

module _ {S E : Type 0} {P R R' : S → Type 0} where
  -- One step that leads to `M`, and the rest from there.
  pub Leads-bind :
      {A B : Type 0} (M : S → Type 0) (m : Action S E A) (f : A → Action S E B)
      → Leads P M R' m
      → ((a : A) → Leads M R R' (f a))
      → Leads P R R' (m >>= f)
  unfolding ◌>>=◌
  Leads-bind M m f h k = record {
    at = λ s p. let (r, s') = m s in Leads-continue M r f s' (h.at s p) k;
  }

  pub Leads-Keeps :
      {A : Type 0} {Q : E → Type 0} (m : Action S E A)
      → Keeps P Q m
      → ((s : S) → P s → R s)
      → ((s : S) → P s → R' s)
      → Leads P R R' m
  Leads-Keeps m h k k' = record { at = λ s p. Ends-both (m s).0 (m s).1 (h.at s p).1 k k' }

  pub Leads-if :
      {A : Type 0} (b : Bool) (m n : Action S E A)
      → (b ≡ true → Leads P R R' m)
      → (b ≡ false → Leads P R R' n)
      → Leads P R R' (if b then m else n)
  Leads-if true m n h k = h refl
  Leads-if false m n h k = k refl

  pub Leads-when :
      (b : Bool) (m : Action S E (Unit {0}))
      → Leads P R R' m
      → ((s : S) → P s → R s)
      → Leads P R R' (when b m)
  unfolding when pure
  Leads-when true m h k = h
  Leads-when false m h k = record { at = λ s p. k s p }

module _ {S E : Type 0} {P R M : S → Type 0} where
  pub Leads-attempt : (m : Action S E (Unit {0})) → Leads P R R m → Leads P R M (attempt m)
  unfolding attempt
  Leads-attempt m h = record { at = λ s p. by (m s).0 (m s).1 (h.at s p) }
    where
      by : (r : Result E (Unit {0})) (s : S) → Ends R R r s → R s
      by (ok a) s e = e
      by (err x) s e = e

pub ruleset keeps_rules = (
  Keeps-pure, Keeps-raise, Keeps-raise?, Keeps-bind, Keeps-then, Keeps-attempt, Keeps-attempt_get,
  Keeps-when, Keeps-if, Keeps-for_each,
)
