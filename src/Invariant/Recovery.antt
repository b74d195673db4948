-- ===== src/Invariant/Recovery.antt =====
-- internal/invariant/recovery.go: how long the faults of a run excuse the target.
pub mod Span
pub mod Over
use botbox.Base.{
  ◌+◌, ◌-◌, Bool, not, ◌&&◌, ◌||◌, List, [], ◌∷◌, if◌then◌else◌, any, find?, Option, none, some,
}
use botbox.Clock.{Time, is_zero, before, after, later}
use botbox.Invariant.{
  Input, Op, Checkpoint, FaultWindow, Exit, is_converged, settle_timeout, faulted, op_before,
}
use botbox.Invariant.Running.{settled_by}

-- `lastConverged`, and its loop.
unfoldable pub last_converged_in : List Checkpoint → Time → Time → Time
last_converged_in [] t converged = converged
last_converged_in (c ∷ cs) t converged = last_converged_in cs t (
    if is_converged c.settle && (not (after c.time t) && after c.time converged)
    then c.time
    else converged)

unfoldable pub last_converged : Input → Time → Time
last_converged inp t = last_converged_in inp.checkpoints t 0

-- `nextConverged`, and its loop.
unfoldable pub next_converged_in : List Checkpoint → Time → Time → Time
next_converged_in [] t converged = converged
next_converged_in (c ∷ cs) t converged = next_converged_in cs t (
    if is_converged c.settle && (after c.time t && (is_zero converged || before c.time converged))
    then c.time
    else converged)

unfoldable pub next_converged : Input → Time → Time
next_converged inp t = next_converged_in inp.checkpoints t 0

-- A fault that stopped by `t`, after the last convergence: the loop of `faultsOwed` skips the others.
unfoldable pub stopped_since : Time → Time → FaultWindow → Bool
stopped_since t recovered f = not (after f.end t) && after f.end recovered

-- One such fault, in the loop of `faultsOwed`: the first start and the last end.
abbrev pub widened : FaultWindow → Time × Time → Time × Time
widened f (first, last) = (
  (if is_zero first || before f.start first then f.start else first),
  (if after f.end last then f.end else last),
)

unfoldable pub fault_span : Time → Time → List FaultWindow → Time × Time → Time × Time
fault_span t recovered [] span = span
fault_span t recovered (f ∷ fs) span =
    fault_span t recovered fs (if stopped_since t recovered f then widened f span else span)

-- The sum `last + (last - from + settle)`, whose difference is signed.
abbrev pub owed_after : Input → Time × Time → Time → Time
owed_after inp (first, last) recovered =
    if is_zero last then 0 else last + last + settle_timeout inp - later first recovered

-- `faultsOwed`
unfoldable pub faults_owed : Input → Time → Time
unfolding last_converged fault_span stopped_since
faults_owed inp t =
    let recovered = last_converged inp t in
    owed_after inp (fault_span t recovered inp.faults (0, 0)) recovered

-- `faultsExcuse`
unfoldable pub faults_excuse : Input → Time → Bool
faults_excuse inp t = faulted inp t t || before t (faults_owed inp t)

-- `firstExcusedExitSince`
unfoldable pub first_excused_exit_since : Input → Op → Exit → Bool
first_excused_exit_since inp op exit = not (
    any inp.exits (λ earlier.
      not (before earlier.at op.time)
      && (before earlier.at exit.at && faults_excuse inp earlier.at)))

-- An exit whose restart `Owed` counts.
unfoldable pub counts_exit : Input → Time → Time → Bool → Exit → Bool
counts_exit inp t recovered active exit =
    not (after exit.at t)
    && (after exit.at recovered
        && (faults_excuse inp exit.at
            && (not active
                || first_excused_exit_since inp (op_before inp (settled_by inp exit.restart))
                    exit)))

-- The loop of `Owed` over the exits.
unfoldable pub exits_owed : Input → Time → Time → Bool → List Exit → Time → Time
exits_owed inp t recovered active [] owed = owed
exits_owed inp t recovered active (e ∷ exits) owed =
    exits_owed inp t recovered active exits
      (if counts_exit inp t recovered active e then later owed (settled_by inp e.restart) else owed)

-- `Owed`
unfoldable pub owed : Input → Time → Time
owed inp t = exits_owed inp t (last_converged inp t) (faulted inp t t) inp.exits (faults_owed inp t)

-- `Recovering`
unfoldable pub recovering : Input → Time → Bool
recovering inp t = faulted inp t t || before t (owed inp t)

-- The loop of `RecreateOwed` over the faults.
abbrev recreate_after : Input → Time → List FaultWindow → Time → Time
recreate_after inp t [] owed = owed
recreate_after inp t (f ∷ fs) owed = recreate_after inp t fs (
    if is_zero f.end || after f.end t
    then owed
    else later owed (f.end + f.end + settle_timeout inp - f.start))

-- `RecreateOwed`
unfoldable pub recreate_owed : Input → Time → Time
recreate_owed inp t = recreate_after inp t inp.faults (owed inp t)

abbrev exit_restart : Option Exit → Time
exit_restart none = 0
exit_restart (some e) = e.restart

-- `PendingRestart`
unfoldable pub pending_restart : Input → Time → Time
pending_restart inp t =
    exit_restart
      (find? inp.exits (λ e. not (after e.at t) && (after e.restart t && faults_excuse inp e.at)))

-- `excusedExit`
unfoldable pub excused_exit : Input → Time → Time → Bool
excused_exit inp from to =
    any inp.exits (λ e. not (before e.at from) && (not (after e.at to) && faults_excuse inp e.at))
