-- ===== src/Run/Runner/Apply.antt =====
-- internal/run/runner.go: one op, with the waits and checkpoints about it (`applyOp`), and the sequence
-- (`applyOps`).
use botbox.Base.{
  ℕ, String, Bool, true, false, not, ◌||◌, Option, none, some, List, [], ◌∷◌, ◌++◌, String-eq,
  if◌then◌else◌, length, set, is_some,
}
use botbox.Base.Int.{ℤ-eq}
use botbox.Base.Action.{Result, ok, err, pure, raise, ◌>>=◌, ◌>>◌, when, attempt_get, reword}
use botbox.Observe.{GroupVersionKind-eq}
use botbox.Invariant.Recovery.{recovering}
use botbox.Invariant.Deletion.{excused}
use botbox.Run.Sequence
use botbox.Run.Sequence.{OpType, Op, on_cr, settles}
use botbox.Run.Sequence.Crs.{cr_name}
use botbox.Run.Runner.{
  Wait, AppliedOp, RunTarget, Note, Libraries, Harness, RunError, refused, target_stopped,
  not_an_op_type, stayed, in_op, panics, Method, look, try, runner_of, change, on_timeline,
  patch_cr, delete_cr, restart,
}
use botbox.Run.Runner.Waits.{expire_faults, as_of, judge, settle_op, await_restart, checkpoint_of}
use botbox.Run.Runner.Ops.{
  object_of, create, recreate, check_resource, inject, apply_delete_managed, or_refused, skip,
}
use botbox.Run.Runner.Ops.Fixtures.{Restored, restore_fixtures, apply_to_fixture}

module _ (lib : Libraries) (H : Harness) (t : RunTarget) (limit : ℕ) where
  open H use {Error}
  open lib use {get_name}

  abbrev pub named_none : Method Error (Unit {0}) → Method Error String
  named_none m = m >>= λ _. pure ""

  -- The case of a fault op.
  unfoldable pub apply_fault : Op → Option Sequence.Fault → Method Error (Unit {0})
  unfolding check_resource inject
  apply_fault op none = raise panics
  apply_fault op (some fault) = do
    check_resource lib H t fault.match.resource
    inject lib H t op fault

  -- `apply`
  unfoldable pub apply_as : OpType → Op → String → Method Error String
  unfolding create recreate apply_fault apply_delete_managed apply_to_fixture
  apply_as OpType.create op cr = named_none (create lib H t op)
  apply_as OpType.update op cr =
      named_none (or_refused lib H t op (try (patch_cr cr (object_of op.patch)) H.patch_cr))
  apply_as OpType.delete op cr = named_none (try (delete_cr cr) H.delete_cr)
  apply_as OpType.recreate op cr = named_none (recreate lib H t op cr)
  apply_as OpType.restart op cr = named_none (try restart H.restart)
  apply_as OpType.fault op cr = named_none (apply_fault op op.fault)
  apply_as OpType.delete_managed op cr = apply_delete_managed lib H t op
  apply_as OpType.update_fixture op cr = named_none (apply_to_fixture lib H t op)
  apply_as OpType.delete_fixture op cr = named_none (apply_to_fixture lib H t op)
  apply_as OpType.settle op cr = pure ""
  apply_as (OpType.other s) op cr = raise (not_an_op_type op)

  -- What is left of `judgeStayed` once the checkpoint is judged.
  abbrev pub excused_or_stayed : Op → String → Wait → Bool → Method Error (Unit {0})
  excused_or_stayed op cr w false = raise (stayed cr w)
  excused_or_stayed op cr w true = do
    change (λ r. record r { stopped = true })
    skip lib H t (Note.stopped_run op w)

  -- `judgeStayed`
  unfoldable pub judge_stayed : Op → String → Wait → Method Error (Unit {0})
  judge_stayed op cr w = do
    let c = record (checkpoint_of w op.index) { stayed = true }
    judge H t limit c excused
    r ← runner_of
    if is_some r.violation
        then pure tt
        else (do inp ← as_of H t c.at; excused_or_stayed op cr w (recovering inp c.at))

  -- The outcome of an op that was applied: what it deleted, and its error.
  abbrev pub deleted_by : Result (RunError Error) String → String
  deleted_by (ok name) = name
  deleted_by (err e) = ""

  abbrev pub finish : Result (RunError Error) String → Op → Method Error (Unit {0})
  finish (ok name) op = when (settles op) (settle_op H t limit op)
  finish (err (stayed cr w)) op = judge_stayed op cr w
  finish (err e) op = raise e

  abbrev pub apply_restored :
      Restored lib H t → Op → String → Method Error (Result (RunError Error) String)
  apply_restored (restored, ok a) op cr = attempt_get (apply_as op.type op cr)
  apply_restored (restored, err e) op cr = pure (err e)

  abbrev pub cr_of : Op → String
  cr_of op = if on_cr op.type then cr_name get_name t.sample_name op else ""

  -- `applyOp`, once the op is on the timeline, at `landed`.
  unfoldable pub act : Op → AppliedOp → ℕ → Method Error (Unit {0})
  unfolding apply_as restore_fixtures judge_stayed
  act op applied landed = do
    restored ← restore_fixtures lib H t op.index
    outcome ← apply_restored restored op applied.cr
    let done = record applied { deleted = deleted_by outcome; restored = restored.0 }
    change (on_timeline (λ l. record l { ops = set l.ops landed done }))
    finish outcome op

  -- `applyOp`
  unfoldable pub apply_op : Op → Method Error (Unit {0})
  unfolding act
  apply_op op = do
    expire_faults H t op.index
    await_restart H t
    running ← look H.is_running
    when (not running) (raise target_stopped)
    at ← look H.now
    let applied : AppliedOp = record {
      op = op;
      at = at;
      cr = cr_of op;
      deleted = "";
      restored = false;
      settled = none;
    }
    r ← runner_of
    change (on_timeline (λ l. record l { ops = l.ops ++ applied ∷ [] }))
    act op applied (length r.timeline.ops)

  abbrev pub wrapped : Op → Result (RunError Error) (Unit {0}) → Result (RunError Error) (Unit {0})
  wrapped op (ok a) = ok a
  wrapped op (err (refused o e)) = err (refused o e)
  wrapped op (err e) = err (in_op op e)

  -- The next op, unless the run has ended.
  abbrev pub or_ended : Bool → Op → Method Error (Unit {0}) → Method Error (Unit {0})
  or_ended true op rest = pure tt
  or_ended false op rest = reword (wrapped op) (apply_op op) >> rest

  -- `applyOps`
  unfoldable pub apply_ops : List Op → Method Error (Unit {0})
  unfolding apply_op
  apply_ops [] = pure tt
  apply_ops (op ∷ ops) = do
    r ← runner_of
    or_ended (is_some r.violation || r.stopped) op (apply_ops ops)
