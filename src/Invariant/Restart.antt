-- ===== src/Invariant/Restart.antt =====
-- internal/invariant/g5.go: what a Restart is compared across, and what its report quotes.
pub mod Spread
pub mod Reach
use botbox.Base.{
  ℕ, Bool, true, false, not, ◌&&◌, ◌||◌, Option, none, some, List, [], ◌∷◌, if◌then◌else◌,
  filter_by, any,
}
use botbox.Clock.{Time, before, after}
use botbox.Invariant.{Input, Op, Checkpoint, is_converged, changes_run}

-- `changesBetween`
unfoldable pub changes_between : Input → Time → Time → List Op
changes_between inp from to =
    filter_by (λ o. changes_run o && (not (before o.time from) && before o.time to)) inp.ops

abbrev pub first_of : List Op → Option Op
first_of [] = none
first_of (o ∷ ops) = some o

-- `changedBetween`
unfoldable pub changed_between : Input → Time → Time → Option Op
unfolding changes_between
changed_between inp from to = first_of (changes_between inp from to)

-- Which side of a Restart has no converged snapshot.
pub data Around : Type 0 where
  around : Checkpoint → Checkpoint → Around
  missing_before missing_after : Around

abbrev or_first : Option Checkpoint → Checkpoint → Option Checkpoint
or_first none c = some c
or_first (some first) c = some first

-- The loop of `convergedAround`: the last that converged before, and the first after.
abbrev around_in :
    Time
    → List Checkpoint
    → Option Checkpoint
    → Option Checkpoint
    → Option Checkpoint × Option Checkpoint
around_in t [] last first = (last, first)
around_in t (c ∷ cs) last first =
    if not (is_converged c.settle)
    then around_in t cs last first
    else if before c.time t
    then around_in t cs (some c) first
    else around_in t cs last (if after c.time t then or_first first c else first)

abbrev as_around : Option Checkpoint × Option Checkpoint → Around
as_around (none, first) = missing_before
as_around (some last, none) = missing_after
as_around (some last, some first) = around last first

-- `convergedAround`
unfoldable pub converged_around : Input → Op → Around
converged_around inp o = as_around (around_in o.time inp.checkpoints none none)
