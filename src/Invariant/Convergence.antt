-- ===== src/Invariant/Convergence.antt =====
-- `Convergence` (G4) of internal/invariant/g4.go: the target is ready in time after each change of its
-- input, and no settle wait expires without an excuse.
pub mod Late
pub mod Exact
use botbox.Base.{
  ◌+◌, Bool, true, false, not, ◌&&◌, ◌||◌, Option, none, some, List, [], ◌∷◌, ◌++◌, map,
  if◌then◌else◌, any, filter_by, is_some,
}
use botbox.Base.Sort.{sort_by}
use botbox.Clock.{Time, is_zero, before, after, later}
use botbox.Json.{Fields}
use botbox.Observe.{Version}
use botbox.Run.Sequence.{OpType, op_type_beq}
use botbox.Run.Settle.Readiness.{Evaluated, holds, not_bool, not_evaluated}
use botbox.Invariant.{
  Input, Op, FaultWindow, Checkpoint, SettleResult, no_settle, converged, expired, settle_timeout,
  gives_input, observed, faulted,
}
use botbox.Invariant.State.{state_at}
use botbox.Invariant.Attribution.{crs}
use botbox.Invariant.Window.{torn_down}
use botbox.Invariant.Running.{restart_owed}
use botbox.Invariant.Recovery.{owed, next_converged, excused_exit}
use botbox.Invariant.Deletion.{excused}

pub data Cause : Type 0 where
  of_op : Op → Cause
  of_fault : FaultWindow → Cause

pub record Anchor : Type 0 where
  pub at : Time
  pub deadline : Time
  pub what : Cause

-- A settle wait that converged before the target was owed more shows that it had recovered.
abbrev or_converged : Time → Time → Time
or_converged t until = if not (is_zero t) && before t until then t else until

-- `readyBy`
unfoldable pub ready_by : Input → Time → Time
unfolding next_converged
ready_by inp at =
    let settled = at + settle_timeout inp in
    later settled
      (or_converged (next_converged inp at) (later (owed inp at) (restart_owed inp settled)))

abbrev pub op_anchor : Input → Op → Anchor
op_anchor inp o = record { at = o.time; deadline = ready_by inp o.time; what = of_op o }

abbrev pub fault_anchor : Input → FaultWindow → Anchor
fault_anchor inp f = record { at = f.end; deadline = ready_by inp f.end; what = of_fault f }

-- `convergeAnchors`. Anchors of one instant differ in `what` only, and keep the order of the loops.
unfoldable pub converge_anchors : Input → List Anchor
unfolding gives_input ready_by
converge_anchors inp =
    sort_by (λ a b. before a.at b.at)
      (map (op_anchor inp) (filter_by gives_input inp.ops)
        ++ map (fault_anchor inp) (filter_by (λ f. not (is_zero f.end)) inp.faults))

-- `respecified`
unfoldable pub respecified : Input → Time → Time → Bool
unfolding gives_input
respecified inp from to = any inp.ops (λ o.
    (gives_input o || op_type_beq o.type OpType.delete_fixture)
    && (after o.time from && before o.time to))

-- The guard of the loop over the anchors.
unfoldable pub passes_over : Input → Anchor → Bool
unfolding excused_exit respecified
passes_over inp a =
    not (observed inp a.deadline)
    || (faulted inp a.at a.deadline
        || (excused_exit inp a.at a.deadline
            || (torn_down inp a.deadline || respecified inp a.at a.deadline)))

-- What is not ready, and whether a predicate gave no Bool, which ends the check.
pub record Outcome (A : Type 0) : Type 0 where
  pub found : List A
  pub failed : Bool

abbrev none_found : {A : Type 0} → Outcome A
none_found = record { found = []; failed = false }

abbrev pub add : {A : Type 0} → A → Outcome A → Outcome A
add x o = record o { found = x ∷ o.found }

module _ (predicate : Fields → Evaluated) where
  -- A round of the loop over the CRs: `rest` is what the loop finds after it.
  abbrev pub judge_cr :
      Anchor → Version → Evaluated → Outcome (Anchor × Version) → Outcome (Anchor × Version)
  judge_cr a cr not_bool rest = record { found = []; failed = true }
  judge_cr a cr not_evaluated rest = add (a, cr) rest
  judge_cr a cr (holds true) rest = rest
  judge_cr a cr (holds false) rest = add (a, cr) rest

  unfoldable pub judge_crs :
      Anchor → List Version → Outcome (Anchor × Version) → Outcome (Anchor × Version)
  judge_crs a [] rest = rest
  judge_crs a (cr ∷ left) rest =
      let others = judge_crs a left rest in
      if is_some cr.deletion_timestamp then others else judge_cr a cr (predicate cr.object) others

  -- The loop over the anchors.
  unfoldable pub late_from : Input → List Anchor → Outcome (Anchor × Version)
  unfolding passes_over judge_crs
  late_from inp [] = none_found
  late_from inp (a ∷ anchors) =
      let rest = late_from inp anchors in
      if passes_over inp a
      then rest
      else judge_crs a (crs (state_at inp a.deadline) inp.target.primary) rest

  -- `Convergence`, up to the settle waits: each CR that was not ready by a deadline.
  unfoldable pub late : Input → Outcome (Anchor × Version)
  unfolding late_from converge_anchors
  late inp = late_from inp (converge_anchors inp)

abbrev is_expired : SettleResult → Bool
is_expired no_settle = false
is_expired converged = false
is_expired expired = true

-- The waits of `reportExpiredWaits`.
unfoldable pub expired_waits : Input → List Checkpoint
unfolding excused
expired_waits inp = filter_by (λ c. is_expired c.settle && not (excused inp c)) inp.checkpoints
