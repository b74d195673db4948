-- ===== src/Run/Teardown.antt =====
-- internal/run/teardown.go: what Start brought up, and how Stop takes it down. What the steps act on is a
-- `World`, and their errors are an `Error`.
pub mod Once
use botbox.Base.{ℕ, zero, suc, String, Option, none, some, List, [], ◌∷◌, ◌++◌, length, get_elem?}

pub record Step (World Error : Type 0) : Type 0 where
  pub what : String
  pub undo : World → Option Error × World

pub record Teardown (World Error : Type 0) : Type 0 where
  pub steps : List (Step World Error)

abbrev pub failures_of : {Error : Type 0} → String → Option Error → List (String × Error)
failures_of what none = []
failures_of what (some e) = (what, e) ∷ []

module _ {World Error : Type 0} where
  -- `push`
  unfoldable pub push :
      String → (World → Option Error × World) → Teardown World Error → Teardown World Error
  push what undo t = record { steps = t.steps ++ record { what = what; undo = undo } ∷ [] }

  -- One step's undo, and what the loop does after it.
  abbrev pub undo_then :
      Step World Error
      → (World → List (String × Error) × World)
      → World
      → List (String × Error) × World
  undo_then s rest w =
      let (failed, w') = s.undo w in
      let (failures, w'') = rest w' in (failures_of s.what failed ++ failures, w'')

  abbrev pub at_index :
      Option (Step World Error)
      → (World → List (String × Error) × World)
      → World
      → List (String × Error) × World
  at_index none rest = rest
  at_index (some s) rest = undo_then s rest

  -- The loop, over the indices below i.
  unfoldable pub undo_below : ℕ → List (Step World Error) → World → List (String × Error) × World
  undo_below zero steps w = ([], w)
  undo_below (suc i) steps w = at_index (get_elem? steps i) (λ w'. undo_below i steps w') w

  -- `run`: the failures that errors.Join joins, the teardown, and the world.
  unfoldable pub run :
      Teardown World Error → World → List (String × Error) × Teardown World Error × World
  unfolding undo_below
  run t w =
      let (failures, w') = undo_below (length t.steps) t.steps w in
      (failures, record { steps = [] }, w')
