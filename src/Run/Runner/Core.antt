-- ===== src/Run/Runner/Core.antt =====
-- What a run is judged by, its violation, its checkpoints and its ops, and the methods that leave it alone.
pub mod Ops
use botbox.Base.{
  ℕ, zero, suc, String, Bool, true, false, Option, none, some, List, [], ◌∷◌, ◌++◌, ◌≡◌, refl, ap,
  ◌∙◌, map, if◌then◌else◌, is_some, length, update,
}
use botbox.Base.Action.{Action, Result, ok, err, ◌>>=◌, when, reword}
use botbox.Base.Action.Keeps.{
  OnError, Keeps, Keeps-pure, Keeps-raise, Keeps-raise?, Keeps-bind, Keeps-attempt,
  Keeps-attempt_get, Keeps-reword, Keeps-when, Keeps-if, Keeps-for_each, keeps_rules,
}
use botbox.Base.Int.{ℤ}
use botbox.Clock.{Time}
use botbox.Invariant
use botbox.Run.Sequence.{Op}
use botbox.Run.Runner.{
  Window, AppliedOp, Checkpoint, Violation, RunTarget, HeldFault, Runner, Call, World, Harness,
  RunError, State, Method, look, call, try, try_get, lift, runner_of, change, on_timeline, failed,
  answered, lifted,
}
use botbox.Run.Runner.Waits.{
  read_exits, write_window, read_windows_of, read_fault_windows, expire_faults, as_of, owed, poll,
  note_converged, wait, input, is_unexcused, floor_after, await_restart, settle_last,
}

pub record Core : Type 0 where
  pub violation : Option Violation
  pub checkpoints : List Checkpoint
  pub ops : List Op

abbrev pub core_of : Runner → Core
core_of r = record {
  violation = r.violation;
  checkpoints = r.timeline.checkpoints;
  ops = map (λ a. a.op) r.timeline.ops;
}

abbrev pub Has : Core → State → Type 0
Has c s = core_of s.runner ≡ c

abbrev pub Any : {E : Type 0} → RunError E → Type 0
Any e = Unit

-- The method leaves the core as it was.
abbrev pub Spares : {E A : Type 0} → Core → Method E A → Type 0
Spares c m = Keeps (Has c) Any m

OnError-Any : {E A : Type 0} (r : Result (RunError E) A) → OnError Any r
OnError-Any (ok a) = tt
OnError-Any (err e) = tt

pub Any_lem : {E : Type 0} (e : RunError E) → Any e
Any_lem e = tt

module _ {E : Type 0} {c : Core} where
  pub Spares-look : {A : Type 0} (f : World → A) → Spares {E = E} c (look f)
  unfolding look
  Spares-look f = record { at = λ s h. (tt, h) }

  pub Spares-call : {A : Type 0} (k : Call) (f : World → A) → Spares {E = E} c (call k f)
  unfolding call
  Spares-call k f = record { at = λ s h. (tt, h) }

  pub Spares-try : (k : Call) (f : World → Option E) → Spares {E = E} c (try k f)
  unfolding try
  Spares-try k f = record { at = λ s h. (OnError-Any (failed (f s.world)), h) }

  pub Spares-try_get :
      {A : Type 0} (k : Call) (f : World → A × Option E) → Spares {E = E} c (try_get k f)
  unfolding try_get
  Spares-try_get k f = record { at = λ s h. (OnError-Any (answered (f s.world)), h) }

  pub Spares-lift : {A : Type 0} (f : World → Result E A) → Spares {E = E} c (lift f)
  unfolding lift
  Spares-lift f = record { at = λ s h. (OnError-Any (lifted (f s.world)), h) }

  pub Spares-runner_of : Spares {E = E} c runner_of
  unfolding runner_of
  Spares-runner_of = record { at = λ s h. (tt, h) }

  pub Spares-change :
      (f : Runner → Runner)
      → ((r : Runner) → core_of (f r) ≡ core_of r)
      → Spares {E = E} c (change f)
  unfolding change
  Spares-change f k = record { at = λ s h. (tt, k s.runner ∙ h) }

  pub Spares-reword :
      (f : Result (RunError E) (Unit {0}) → Result (RunError E) (Unit {0}))
      (m : Method E (Unit {0}))
      → Spares {E = E} c m
      → Spares {E = E} c (reword f m)
  Spares-reword f m h = Keeps-reword f m h (λ r q. OnError-Any (f r))

pub ruleset spares_rules = (
  keeps_rules, Spares-look, Spares-call, Spares-try, Spares-try_get, Spares-lift, Spares-runner_of,
  Spares-change, Spares-reword, Any_lem, refl,
)

module _ (H : Harness) (t : RunTarget) {c : Core} where
  open H use {Error}

  pub read_exits-Spares : Spares c (read_exits H t)
  unfolding read_exits
  read_exits-Spares = search spares_rules

  pub write_window-Spares : (i : ℕ) (w : Window) → Spares c (write_window H t i w)
  unfolding write_window
  write_window-Spares i w = search spares_rules

  pub read_windows_of-Spares : (fs : List HeldFault) → Spares c (read_windows_of H t fs)
  unfolding read_windows_of
  read_windows_of-Spares [] = search spares_rules
  read_windows_of-Spares (f ∷ fs) = Keeps-bind _ _ (Spares-look _) (λ proxied.
      Keeps-bind _ _ (write_window-Spares f.window _)
        (λ _. Keeps-bind _ _ (read_windows_of-Spares fs) (λ rest. Keeps-pure _)))

  pub read_fault_windows-Spares : Spares c (read_fault_windows H t)
  unfolding read_fault_windows
  read_fault_windows-Spares = search (spares_rules, read_windows_of-Spares) depth 12

  pub expire_faults-Spares : (op : ℤ) → Spares c (expire_faults H t op)
  unfolding expire_faults
  expire_faults-Spares op = search (spares_rules, read_fault_windows-Spares) depth 12

  pub as_of-Spares : (at : Time) → Spares c (as_of H t at)
  unfolding as_of
  as_of-Spares at = search (spares_rules, read_fault_windows-Spares, read_exits-Spares) depth 12

  pub owed-Spares : Spares c (owed H t)
  unfolding owed
  owed-Spares = search (spares_rules, as_of-Spares) depth 12

  pub poll-Spares : (n : ℕ) → Spares c (poll H t n)
  unfolding poll
  poll-Spares zero = search spares_rules depth 12
  poll-Spares (suc n) = Keeps-bind _ _ owed-Spares (λ at. poll-Spares n)

  pub note_converged-Spares : (end : Time) → Spares c (note_converged H t end)
  unfolding note_converged
  note_converged-Spares end = search spares_rules depth 12

  pub wait-Spares : (floor : Time) → Spares c (wait H t floor)
  unfolding wait
  wait-Spares floor = search (spares_rules, poll-Spares, note_converged-Spares) depth 12

  pub input-Spares : Spares c (input H t)
  unfolding input
  input-Spares = search spares_rules depth 12

  pub is_unexcused-Spares :
      (k : Checkpoint) (excuse : Invariant.Input → Invariant.Checkpoint → Bool)
      → Spares c (is_unexcused H t k excuse)
  unfolding is_unexcused
  is_unexcused-Spares k excuse = search (spares_rules, as_of-Spares) depth 12

  pub floor_after-Spares : (a : Option AppliedOp) → Spares c (floor_after H t a)
  unfolding floor_after
  floor_after-Spares none = search spares_rules depth 12
  floor_after-Spares (some a) = search (spares_rules, as_of-Spares) depth 12

  pub await_restart-Spares : Spares c (await_restart H t)
  unfolding await_restart
  await_restart-Spares = search (spares_rules, as_of-Spares) depth 12
