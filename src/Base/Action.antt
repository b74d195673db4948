-- ===== src/Base/Action.antt =====
-- Methods that change the state of their receiver and may return an error: what they changed before the
-- error stays changed.
pub mod Keeps
use mathlib.Core.Bool.{Bool, true, false}
use mathlib.Core.Option.{Option, none, some}
use mathlib.Core.List.{List, [], ◌∷◌}

pub data Result (E A : Type 0) : Type 0 where
  ok : A → Result E A
  err : E → Result E A

abbrev pub Action : Type 0 → Type 0 → Type 0 → Type 0
Action S E A = S → Result E A × S

abbrev pub error_of : {E : Type 0} → Result E (Unit {0}) → Option E
error_of (ok a) = none
error_of (err e) = some e

module _ {S E A B : Type 0} where
  -- The rest of a method, after an error or none.
  abbrev pub continue : Result E A → (A → Action S E B) → Action S E B
  continue (ok a) f s = f a s
  continue (err e) f s = (err e, s)

  infixl 5 ◌>>=◌
  unfoldable pub ◌>>=◌ : Action S E A → (A → Action S E B) → Action S E B
  ◌>>=◌ m f s = let (r, s') = m s in continue r f s'

module _ {S E : Type 0} where
  unfoldable pub pure : {A : Type 0} → A → Action S E A
  pure a s = (ok a, s)

  unfoldable pub raise : {A : Type 0} → E → Action S E A
  raise e s = (err e, s)

  -- A nil error is `none`.
  unfoldable pub raise? : Option E → Action S E (Unit {0})
  raise? none s = (ok tt, s)
  raise? (some e) s = (err e, s)

  infixl 5 ◌>>◌
  abbrev pub ◌>>◌ : {B : Type 0} → Action S E (Unit {0}) → Action S E B → Action S E B
  m >> k = m >>= λ _. k

  -- The error as a value.
  unfoldable pub attempt : Action S E (Unit {0}) → Action S E (Option E)
  attempt m s = let (r, s') = m s in (ok (error_of r), s')

  unfoldable pub attempt_get : {A : Type 0} → Action S E A → Action S E (Result E A)
  attempt_get m s = let (r, s') = m s in (ok r, s')

  -- Another error, in the place of the action's.
  unfoldable pub reword :
      (Result E (Unit {0}) → Result E (Unit {0})) → Action S E (Unit {0}) → Action S E (Unit {0})
  reword f m s = let (r, s') = m s in (f r, s')

  unfoldable pub when : Bool → Action S E (Unit {0}) → Action S E (Unit {0})
  unfolding pure
  when true m = m
  when false m = pure tt

  unfoldable pub for_each :
      {A : Type 0} → List A → (A → Action S E (Unit {0})) → Action S E (Unit {0})
  unfolding pure ◌>>=◌
  for_each [] f = pure tt
  for_each (x ∷ xs) f = f x >> for_each xs f
