-- ===== src/Run/Settle.antt =====
-- internal/run/settle.go: one settle wait. What it reads of the run, in the order it reads it, is the
-- environment's, whose state `World` each reading and each sleep moves on.
pub mod Ends
pub mod Answers
pub mod Readiness
use botbox.Base.{ℕ, zero, suc, ◌+◌, Bool, true, false, not, ◌&&◌, Option, none, some, if◌then◌else◌}
use botbox.Clock.{Time, before, after, later}

-- The fields of `settle` that are values, with timeouts.stable and timeouts.settle.
pub record Settle : Type 0 where
  pub stable : ℕ
  pub settle : ℕ
  pub floor : Time

-- What `state` reports: whether the target is ready and when the run last changed, or an error.
pub data State (E : Type 0) : Type 0 where
  failed : E → State E
  read : Bool → Time → State E

-- The fields of `settle` that are functions. A nil `owed` is `none`.
pub record Environment : Type 1 where
  pub World : Type 0
  pub Error : Type 0
  pub state : Time → World → State Error × World
  pub now : World → Time × World
  pub stopped : World → Bool × World
  pub held : Time → World → (Bool × Time) × World
  pub owed : Option (World → Time × World)
  pub sleep : World → Option Error × World

-- What one round of the loop comes to: `expired` and `halted` both answer that the wait did not converge.
pub data Round (E : Type 0) : Type 0 where
  converged : Round E
  expired : Round E
  halted : Round E
  error : E → Round E
  again : Round E

-- `heldOpen`, of what `held(deadline)` reported.
unfoldable pub held_open : Bool × Time → Time → Time → ℕ → Time
held_open (holding, released) deadline now settle =
    let end = (if holding then now else released) + settle in
    if after end deadline then end else deadline

-- When the run last changed, with the requests that the proxy holds or released.
unfoldable pub last_change : Bool × Time → Time → Time → Time
last_change (holding, released) changed now =
    if holding then now else if after released changed then released else changed

module _ (env : Environment) (s : Settle) where
  open env use {World, Error, state, now, stopped, held, owed, sleep}

  -- The deadline, where nothing is owed.
  unfoldable pub floored : Time → Time
  floored start = later (start + s.settle) (s.floor + s.stable)

  abbrev pub owed_deadline : Option (World → Time × World) → Time → World → Time × World
  owed_deadline none deadline w = (deadline, w)
  owed_deadline (some owed_by) deadline w = let (t, w') = owed_by w in (later deadline t, w')

  -- The end of a round: `sleep`, whose error ends the wait.
  abbrev slept : Option Error × World → Round Error × World
  slept (none, w) = (again, w)
  slept (some e, w) = (error e, w)

  -- The round from where the wait has not converged.
  unfoldable pub expire : Time → Time → World → Round Error × World
  unfolding floored held_open
  expire start t w =
      let (deadline, w1) = owed_deadline owed (floored start) w in
      let (holding, w2) = held deadline w1 in
      if not (before t (held_open holding deadline t s.settle))
      then (expired, w2)
      else slept (sleep w2)

  -- The test of convergence.
  unfoldable pub is_settled : Bool → Time → Time → Bool
  is_settled ready changed t =
      ready && (not (before t (changed + s.stable)) && not (before t s.floor))

  abbrev judge : Time → State Error × World → Round Error × World
  judge start (failed e, w) = (error e, w)
  judge start (read ready changed, w) =
      let (t, w1) = now w in
      let (stop, w2) = stopped w1 in
      let (holding, w3) = held t w2 in
      if stop
      then (halted, w2)
      else if is_settled ready (last_change holding changed t) t
      then (converged, w3)
      else expire start t w3

  -- One round of the loop.
  unfoldable pub round : Time → World → Round Error × World
  unfolding expire is_settled last_change
  round start w = judge start (state start w)

  -- What a round hands on: its answer, or the rest of the loop.
  abbrev or_again :
      Option (Round Error × World) → Round Error × World → Option (Round Error × World)
  or_again rest (again, w) = rest
  or_again rest (converged, w) = some (converged, w)
  or_again rest (expired, w) = some (expired, w)
  or_again rest (halted, w) = some (halted, w)
  or_again rest (error e, w) = some (error e, w)

  -- The loop, on fuel: `none` is a wait that still runs.
  unfoldable pub wait_from : ℕ → Time → World → Option (Round Error × World)
  wait_from zero start w = none
  wait_from (suc fuel) start w =
      let r = round start w in let rest = wait_from fuel start r.1 in or_again rest r

  -- `wait`
  unfoldable pub wait : ℕ → World → Option (Round Error × World)
  unfolding wait_from
  wait fuel w = let (start, w') = now w in wait_from fuel start w'
