-- ===== src/Invariant/Healing.antt =====
-- `SelfHealing` (G7) of internal/invariant/g7.go: an object that an op deleted is there again where the
-- settle wait after the op ends.
pub mod Lost
use botbox.Base.{
  String, Bool, true, false, not, ◌&&◌, ◌||◌, Option, none, some, List, [], ◌∷◌, ◌==◌,
  if◌then◌else◌, any, filter_by, contains, is_some,
}
use botbox.Base.Int.{pos}
use botbox.Clock.{Time, before, after}
use botbox.Json.{end}
use botbox.Observe.{Key, Key-eq, GroupVersionKind-eq, Version}
use botbox.Invariant.{Input, Op, Checkpoint, zero_key, zero_op, op_of, faulted}
use botbox.Invariant.State.{state_at, version}
use botbox.Invariant.Attribution.{asked_for}
use botbox.Invariant.Deletion.Clean.{version_at}
use botbox.Invariant.Running.{back, Started, not_restarted, by_op, after_exit, last_restart}
use botbox.Invariant.Recovery.{last_converged, recreate_owed}
use botbox.Invariant.Restart.{changed_between}

abbrev pub or_zero_op : Option Op → Op
or_zero_op none = zero_op
or_zero_op (some o) = o

-- The zero Version, which names no CR.
abbrev pub zero_version : Version
zero_version = record {
  key = zero_key;
  uid = "";
  resource_version = "";
  time = 0;
  generation = pos 0;
  observed_generation = none;
  finalizers = [];
  owner_references = [];
  deletion_timestamp = none;
  labels = [];
  deleted = false;
  object = end;
}

abbrev pub or_zero_version : Option Version → Version
or_zero_version none = zero_version
or_zero_version (some v) = v

abbrev is_late : Time → Option Time → Bool
is_late t none = true
is_late t (some returned) = not (before returned t)

abbrev started_late : Input → Time → Time × Started → Bool
started_late inp t (start, not_restarted) = false
started_late inp t (start, by_op o) = is_late t (back inp.requests start)
started_late inp t (start, after_exit e) = is_late t (back inp.requests start)

-- `stillStarting`
unfoldable pub still_starting : Input → Op → Bool
still_starting inp o = started_late inp o.time (last_restart inp o.time)

-- `stopped`
unfoldable pub stopped : Input → Time → Time → Bool
stopped inp from to = any inp.exits (λ e. not (after e.at to) && not (before e.restart from))

-- What becomes of a checkpoint in the loop of `SelfHealing`. The first three are passed over, the last is
-- a violation, and the others are notes.
pub data Healed : Type 0 where
  exempt returned unasked unconverged was_faulted was_starting was_stopped never_back : Healed

abbrev is_never_back : Healed → Bool
is_never_back never_back = true
is_never_back _ = false

module _ (group_of : String → String) where
  unfoldable pub heal : Input → Checkpoint → Healed
  unfolding still_starting stopped version_at
  heal inp c =
      let o = or_zero_op (op_of inp c.op) in
      let seen = state_at inp c.time in
      if o.deleted == zero_key || contains inp.target.not_recreated o.deleted.gvk
      then exempt
      else if is_some (version seen o.deleted)
      then returned
      else if not (asked_for group_of inp (or_zero_version (version_at inp o.deleted o.time)) seen)
      then unasked
      else if is_some (changed_between inp (last_converged inp o.time) o.time)
      then unconverged
      else if faulted inp o.time c.time || before c.time (recreate_owed inp o.time)
      then was_faulted
      else if still_starting inp o
      then was_starting
      else if stopped inp o.time c.time
      then was_stopped
      else never_back

  -- The violations of `SelfHealing`, by their checkpoints.
  unfoldable pub self_healing : Input → List Checkpoint
  unfolding heal
  self_healing inp = filter_by (λ c. is_never_back (heal inp c)) inp.checkpoints
