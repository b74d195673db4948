-- ===== src/Run/Shrink.antt =====
-- internal/run/shrink.go: how a failing sequence is made smaller. A replay runs the whole target, and
-- the context's deadline passes while it does: both are the environment's, whose state `World` each
-- replay and each reading of `ctx.Err()` moves on.
pub mod Milder
pub mod Weight
pub mod Ends
pub mod Renumber
use botbox.Base.{
  ℕ, zero, suc, ◌+◌, ◌/◌, String, Bool, true, false, not, ◌&&◌, ◌||◌, Option, none, some, List, [],
  ◌∷◌, ◌==◌, ℕ-eq, Bool-eq, String-eq, if◌then◌else◌, length, get_elem?, set, is_some, ltb, leb,
  nat_eq,
}
use botbox.Base.Int.{ℤ, pos, negsuc, ℤ-eq, ltb_ℤ, leb_ℤ, pred_ℤ, pos_part}
use botbox.Run.Sequence.{OpType, op_type_beq, Match, Action, Trigger, Fault, Op, Sequence}
use botbox.Run.Sequence.Validate.{Libraries, validate}

-- What a replay found: an error or a run with no violation, or the violation of this ID.
pub data Outcome : Type 0 where
  no_violation : Outcome
  violated : String → Outcome

pub record Environment : Type 1 where
  pub World : Type 0
  pub replay : Sequence → World → Outcome × World
  pub expired : World → Bool × World

-- 10 ms
abbrev pub min_fault_duration : ℕ
min_fault_duration = 10000000

-- `halved`: none where it answers that there is nothing milder.
unfoldable pub halved : ℤ → Option ℤ
halved (negsuc n) = none
halved (pos d) =
    if leb d min_fault_duration
    then none
    else if ltb min_fault_duration (d / 2)
    then some (pos (d / 2))
    else some (pos min_fault_duration)

-- The half of a count, which stops at 1.
unfoldable pub half_count : ℤ → Option ℤ
half_count (negsuc n) = none
half_count (pos c) = if nat_eq (c / 2) 0 then none else some (pos (c / 2))

-- The axes of `halvings`, in its order.
pub data Axis : Type 0 where
  count_axis for_axis delay_axis : Axis

abbrev pub halvings : List Axis
halvings = count_axis ∷ for_axis ∷ delay_axis ∷ []

abbrev pub carried_by : Axis → Fault → ℤ
carried_by count_axis f = f.until.count
carried_by for_axis f = f.until.for
carried_by delay_axis f = f.action.delay

abbrev pub half_of : Axis → ℤ → Option ℤ
half_of count_axis = half_count
half_of for_axis = halved
half_of delay_axis = halved

abbrev pub with_value : Axis → Fault → ℤ → Fault
with_value count_axis f v = record f { until = record f.until { count = v } }
with_value for_axis f v = record f { until = record f.until { for = v } }
with_value delay_axis f v = record f { action = record f.action { delay = v } }

-- One of `halvings` on an op, with `withFault`; `weaken` calls it on ops that carry a fault.
abbrev milder_fault : Axis → Op → Fault → Option ℤ → Option Op
milder_fault a o f none = none
milder_fault a o f (some v) = some (record o { fault = some (with_value a f v) })

abbrev milder_of : Axis → Op → Option Fault → Option Op
milder_of a o none = none
milder_of a o (some f) = milder_fault a o f (half_of a (carried_by a f))

unfoldable pub milder : Axis → Op → Option Op
unfolding halved half_count
milder a o = milder_of a o o.fault

-- `same` compares two struct values. Its pointers to a fraction and to an op are those that
-- `withFault` copied, so that they are equal where what they point to is.
abbrev option_eq {ℓ} : {A : Type ℓ} → (A → A → Bool) → Option A → Option A → Bool
option_eq eq none none = true
option_eq eq (some a) (some b) = eq a b
option_eq eq _ _ = false

abbrev fault_eq : Fault → Fault → Bool
fault_eq a b =
    a.match.verb == b.match.verb
    && (a.match.resource == b.match.resource
        && (a.match.name == b.match.name
            && (option_eq (λ x y. x == y) a.match.fraction b.match.fraction
                && (a.action.error == b.action.error
                    && (a.action.delay == b.action.delay
                        && (a.action.drop == b.action.drop
                            && (option_eq (λ x y. x == y) a.until.op b.until.op
                                && (a.until.count == b.until.count
                                    && a.until.for == b.until.for))))))))

unfoldable pub same : Op → Op → Bool
same o other = option_eq fault_eq o.fault other.fault

-- `with`
abbrev pub with_op : Sequence → ℕ → Op → Sequence
with_op s i o = record s { ops = set s.ops i o }

-- slices.Delete(ops, i, i+1)
abbrev pub delete_at {ℓ} : {A : Type ℓ} → ℕ → List A → List A
delete_at i [] = []
delete_at zero (x ∷ xs) = xs
delete_at (suc i) (x ∷ xs) = x ∷ delete_at i xs

-- An op index that names an op after position `i` moves down with it.
abbrev pub moved : ℕ → Option ℤ → Option ℤ
moved i none = none
moved i (some until) = if ltb_ℤ (pos i) until then some (pred_ℤ until) else some until

-- `endsAfter` and the write of its answer.
abbrev pub move_fault : ℕ → Option Fault → Option Fault
move_fault i none = none
move_fault i (some f) = some (record f { until = record f.until { op = moved i f.until.op } })

-- The loop of `without`, at position `j`.
unfoldable pub renumber : ℕ → ℕ → List Op → List Op
renumber i j [] = []
renumber i j (o ∷ ops) =
    record o { index = pos j; fault = move_fault i o.fault; until = moved i o.until }
    ∷ renumber i (suc j) ops

-- `without`
unfoldable pub without : Sequence → ℕ → Sequence
without s i = record s { ops = renumber i 0 (delete_at i s.ops) }

abbrev both_same : Option Op → Option Op → Bool
both_same (some a) (some b) = same a b
both_same _ _ = false

-- A candidate that changed nothing: as many ops, and the op at `i` carries the same fault.
unfoldable pub changed_nothing : ℕ → Sequence → Sequence → Bool
changed_nothing i candidate s =
    nat_eq (length candidate.ops) (length s.ops)
    && both_same (get_elem? candidate.ops i) (get_elem? s.ops i)

abbrev milder_op : Axis → Option Op → Option Op
milder_op a none = none
milder_op a (some o) = milder a o

abbrev fault_value : Axis → Option Fault → ℕ
fault_value a none = 0
fault_value a (some f) = pos_part (carried_by a f)

-- `weaken` leaves an op that is no fault op, or carries no fault.
abbrev is_fault_op : Option Op → Bool
is_fault_op none = false
is_fault_op (some o) = op_type_beq o.type OpType.fault && is_some o.fault

module _ (lib : Libraries) (env : Environment) where
  open env use {World, replay, expired}

  abbrev is_violation : String → Outcome → Bool
  is_violation id no_violation = false
  is_violation id (violated other) = other == id

  -- `reproduces`
  unfoldable pub reproduces : String → Sequence → World → Bool × World
  reproduces id candidate w =
      let (outcome, w') = replay candidate w in (is_violation id outcome, w')

  -- A candidate that `reproducing` does not replay.
  unfoldable pub refused : ℕ → Sequence → Sequence → Bool
  refused i candidate s = is_some (validate lib [] candidate) || changed_nothing i candidate s

  -- `reproducing`: the first candidate that still fails the same way.
  unfoldable pub reproducing :
      String → ℕ → Sequence → List Sequence → World → Option Sequence × World
  reproducing id i s [] w = (none, w)
  reproducing id i s (candidate ∷ rest) w =
      let skip = reproducing id i s rest w in
      let (found, w1) = reproduces id candidate w in
      let (stop, w2) = expired w1 in
      let next = reproducing id i s rest w2 in
      if refused i candidate s
      then skip
      else if found
      then (some candidate, w1)
      else if stop
      then (none, w2)
      else next

  abbrev milder_at : Axis → ℕ → Sequence → Option Op
  milder_at a i s = milder_op a (get_elem? s.ops i)

  abbrev try_milder : String → ℕ → Sequence → World → Option Op → Option Sequence × World
  try_milder id i s w none = (none, w)
  try_milder id i s w (some o) = reproducing id i s (with_op s i o ∷ []) w

  -- What a simplifying step hands on: the sequence, whether anything was simplified, and the world.
  abbrev pub Simplified : Type 0
  Simplified = Sequence × Bool × World

  abbrev on_found : (Sequence → Simplified) → Simplified → Option Sequence → Simplified
  on_found next stay none = stay
  on_found next stay (some s) = next s

  -- The inner loop of `weaken`, along one axis, on fuel.
  unfoldable pub weaken_along : ℕ → String → ℕ → Axis → Sequence → Bool → World → Simplified
  weaken_along zero id i a s weakened w = (s, weakened, w)
  weaken_along (suc fuel) id i a s weakened w =
      let (stop, w1) = expired w in
      let (found, w2) = try_milder id i s w1 (milder_at a i s) in
      let next = λ (s' : Sequence). weaken_along fuel id i a s' true w2 in
      if stop then (s, weakened, w1) else on_found next (s, weakened, w2) found

  -- More rounds than an axis can be halved for: each lowers what the op carries there.
  abbrev pub axis_value : Axis → Option Op → ℕ
  axis_value a none = 0
  axis_value a (some o) = fault_value a o.fault

  -- The loop of `weaken` over the axes.
  unfoldable pub weaken_axes : List Axis → String → ℕ → Sequence → Bool → World → Simplified
  unfolding weaken_along
  weaken_axes [] id i s weakened w = (s, weakened, w)
  weaken_axes (a ∷ axes) id i s weakened w =
      let (s', weakened', w') =
        weaken_along (suc (axis_value a (get_elem? s.ops i))) id i a s weakened w in
      weaken_axes axes id i s' weakened' w'

  -- `weaken`
  unfoldable pub weaken : String → ℕ → Sequence → World → Simplified
  weaken id i s w =
      if is_fault_op (get_elem? s.ops i) then weaken_axes halvings id i s false w else (s, false, w)

  -- The loop of `shrinkPass`, by the ops left: each round drops the op at `i` or moves past it.
  unfoldable pub pass_from : ℕ → String → ℕ → Sequence → Bool → World → Simplified
  pass_from zero id i s simplified w = (s, simplified, w)
  pass_from (suc left) id i s simplified w =
      let (stop, w1) = expired w in
      let (found, w2) = reproducing id i s (without s i ∷ []) w1 in
      let shorter = λ (s' : Sequence). pass_from left id i s' true w2 in
      let (s', weakened, w3) = weaken id i s w2 in
      let past = pass_from left id (suc i) s' (simplified || weakened) w3 in
      if stop then (s, simplified, w1) else on_found shorter past found

  -- `shrinkPass`
  unfoldable pub shrink_pass : String → Sequence → World → Simplified
  shrink_pass id s w = pass_from (length s.ops) id 0 s false w

  -- The loop of `Shrink`, on fuel; `none` is a loop that is still running.
  unfoldable pub shrink : ℕ → String → Sequence → World → Option (Sequence × World)
  shrink zero id s w = none
  shrink (suc fuel) id s w =
      let (s', removed, w') = shrink_pass id s w in
      let again = shrink fuel id s' w' in if removed then again else some (s', w')
