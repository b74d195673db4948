-- ===== src/Run/Teardown/Once.antt =====
-- The order in which Stop undoes the steps.
use botbox.Base.{
  ℕ, zero, suc, String, Option, none, some, List, [], ◌∷◌, ◌++◌, ◌≡◌, refl, ap, ◌∙◌, length,
  get_elem?, take, get_elem?-lt, ◌≤◌, arith, fun_ext,
}
use mathlib.Core.Option.{some-injective}
use botbox.Run.Teardown.{Step, Teardown, failures_of, undo_then, undo_below, run}

-- The step that stands at the head, if it fails in this world.
abbrev head_fails :
    {Error : Type 0} → String → Option Error → List (String × Error) → List (String × Error)
head_fails what none later = later
head_fails what (some e) later = (what, e) ∷ later

module _ {World Error : Type 0} where
  -- The world once each of the steps is undone, from the first of the list, whatever each answers.
  abbrev pub undone : List (Step World Error) → World → World
  undone [] w = w
  undone (s ∷ steps) w = undone steps (s.undo w).1

  -- Each step that fails, where each is undone in the world that those before it leave.
  abbrev pub failing : List (Step World Error) → World → List (String × Error)
  failing [] w = []
  failing (s ∷ steps) w = head_fails s.what (s.undo w).0 (failing steps (s.undo w).1)

  abbrev in_turn : List (Step World Error) → World → List (String × Error) × World
  in_turn steps w = (failing steps w, undone steps w)

  undo_then-in_turn :
      (s : Step World Error) (steps : List (Step World Error)) (w : World)
      → undo_then s (in_turn steps) w ≡ in_turn (s ∷ steps) w
  undo_then-in_turn s steps w =
      ap (λ l. (l, undone steps (s.undo w).1)) (by (s.undo w).0 (failing steps (s.undo w).1))
    where
      by :
          (o : Option Error) (later : List (String × Error))
          → failures_of s.what o ++ later ≡ head_fails s.what o later
      by none later = refl
      by (some e) later = refl

  abbrev pub backwards : List (Step World Error) → List (Step World Error)
  backwards [] = []
  backwards (s ∷ steps) = backwards steps ++ s ∷ []

  backwards-take :
      (n : ℕ) (steps : List (Step World Error)) {s : Step World Error}
      → get_elem? steps n ≡ some s
      → backwards (take (suc n) steps) ≡ s ∷ backwards (take n steps)
  backwards-take n [] h = absurd (ground arith)
  backwards-take zero (x ∷ steps) h = ap (λ y. y ∷ []) (some-injective _ _ h)
  backwards-take (suc n) (x ∷ steps) h = ap (λ l. l ++ x ∷ []) (backwards-take n steps h)

  take-length : (steps : List (Step World Error)) → take (length steps) steps ≡ steps
  take-length [] = refl
  take-length (s ∷ steps) = ap (λ l. s ∷ l) (take-length steps)

  undo_below-in_turn :
      (n : ℕ) (steps : List (Step World Error))
      → n ≤ length steps
      → undo_below n steps ≡ in_turn (backwards (take n steps))
  unfolding undo_below
  undo_below-in_turn zero steps h = fun_ext (λ w. refl)
  undo_below-in_turn (suc n) steps h =
      let (s, at) = get_elem?-lt steps n (omega arith) in
      let ih = undo_below-in_turn n steps (omega arith) in
      fun_ext (λ w.
        rw (at, backwards-take n steps at)
          (ap (λ rest. undo_then s rest w) ih ∙ undo_then-in_turn s (backwards (take n steps)) w))

  -- Stop undoes the steps in turn, each once, from the last that Start pushed to the first. One that fails
  -- does not stop those below it: each has its failure reported under what it is, in the order they are
  -- undone. The teardown holds no step after that, and a second Stop undoes nothing and reports nothing.
  pub run-in_turn :
      (t : Teardown World Error) (w later : World)
      → ((run t w).0 ≡ failing (backwards t.steps) w)
        × ((run t w).2 ≡ undone (backwards t.steps) w)
        × ((run t w).1.steps ≡ [])
        × (run (run t w).1 later ≡ ([], (run t w).1, later))
  unfolding run undo_below
  run-in_turn t w later =
      let e =
        undo_below-in_turn (length t.steps) t.steps (omega arith)
        ∙ ap (λ l. in_turn (backwards l)) (take-length t.steps) in
      (ap (λ f. (f w).0) e, ap (λ f. (f w).1) e, refl, refl)
