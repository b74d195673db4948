-- ===== src/Run/Runner/Down.antt =====
-- internal/run/runner.go: the teardown, and a run from its first op to its result.
pub mod Notes
use Prim.Native.String
use botbox.Base.{
  has_any, ℕ, ◌+◌, String, String-eq, Bool, true, false, not, ◌&&◌, ◌||◌, Option, none, some, List,
  [], ◌∷◌, ◌++◌, if◌then◌else◌, is_some, map,
}
use botbox.Base.Int.{ℤ}
use botbox.Base.Map.{Map, insert}
use botbox.Base.Action.{
  Action, Result, ok, err, pure, raise, ◌>>=◌, ◌>>◌, when, attempt, attempt_get,
}
use botbox.Clock.{Time, is_zero}
use botbox.Json.{Fields}
use botbox.Observe.{kind_name}
use botbox.Invariant.{teardown_op, recovery_op}
use botbox.Invariant.Recovery.{recovering}
use botbox.Invariant.Deletion.{deletion_overdue}
use botbox.Run.Sequence.{Op}
use botbox.Run.Runner.{
  Window, Wait, Checkpoint, Timeline, Violation, RunTarget, Input, Runner, Note, Call, World,
  Libraries, Harness, RunError, harness, target_stopped, panics, State, Method, look, call, try,
  runner_of, change, on_timeline, zero_window, clear_faults, sleep, delete_cr, await_clean, empty,
  force_finalizers, stop,
}
use botbox.Run.Runner.Waits.{
  read_exits, read_fault_windows, as_of, wait, checkpoint, judge, input, checkpoint_of, as_error,
}
use botbox.Run.Runner.Apply.{apply_ops}

-- deletionMargin
abbrev deletion_margin : ℕ
deletion_margin = 1000000000

abbrev pub listed : {E : Type 0} → Option E → List E
listed none = []
listed (some e) = e ∷ []

-- The notes of the faults that the proxy applied to no request, with the ops of the faults; none where
-- there are fewer ops than faults, which panics.
unfoldable pub unapplied : List Window → List ℤ → Option (List Note)
unapplied [] ops = some []
unapplied (w ∷ ws) [] = if is_zero w.start then none else unapplied ws []
unapplied (w ∷ ws) (op ∷ ops) =
    let rest = unapplied ws ops in
    if is_zero w.start
    then (elim rest [ none ↦ none | some notes ↦ some (Note.of_no_request op ∷ notes) ])
    else rest

-- What a run starts from: the fixtures by kind and name.
abbrev fixtures_of : Libraries → List Fields → Map String Fields → Map String Fields
fixtures_of lib [] fixtures = fixtures
fixtures_of lib (f ∷ fs) fixtures =
    fixtures_of lib fs (
      insert (String.◌++◌ (kind_name (lib.gvk_of f)) (String.◌++◌ " " (lib.get_name f))) f fixtures)

unfoldable pub start_of : Libraries → RunTarget → String → Runner
start_of lib t namespace = record {
  timeline = record {
    namespace = namespace;
    ops = [];
    checkpoints = [];
    recovery = none;
    quiet = zero_window;
    deletion = zero_window;
    cleaned = 0;
    faults = [];
    forced = [];
    exits = [];
  };
  violation = none;
  notes = [];
  skipped = [];
  failed = false;
  stopped = false;
  converged = 0;
  teardown_start = 0;
  crs = [];
  faults = [];
  fault_ops = [];
  fixtures = fixtures_of lib t.fixtures [];
  deleted = [];
}

-- The checkpoint of the teardown.
abbrev pub checkpoint_at : Time → Bool → Checkpoint
checkpoint_at now clean = record {
  at = now;
  began = 0;
  op = teardown_op;
  converged = clean;
  stayed = false;
  held = false;
}

module _ (H : Harness) (t : RunTarget) (limit : ℕ) where
  open H use {Error}

  -- `clearFaults`
  unfoldable pub clear : Method Error (Unit {0})
  unfolding read_fault_windows
  clear = do call clear_faults (λ w. tt); read_fault_windows H t

  abbrev pub skip_all : Option (List Note) → Method Error (Unit {0})
  skip_all none = raise panics
  skip_all (some notes) = change (λ r. record r { skipped = r.skipped ++ notes })

  -- The wait of `awaitRecovery`, and what is made of it.
  unfoldable pub recover : Method Error (Unit {0})
  unfolding wait judge
  recover = do
    w ← wait H t 0
    change (on_timeline (λ l. record l { recovery = some w }))
    judge H t limit (checkpoint_of w recovery_op) deletion_overdue

  abbrev pub or_failed : Option (RunError Error) → Method Error (Unit {0})
  or_failed none = pure tt
  or_failed (some e) = do change (λ r. record r { failed = true }); raise e

  -- `awaitRecovery`, where the run has failed or found a violation, or not.
  unfoldable pub or_recover : Bool → Time → Method Error (Unit {0})
  unfolding recover as_of
  or_recover true now = pure tt
  or_recover false now = do
    inp ← as_of H t now
    if not (recovering inp now) then pure tt else (attempt recover >>= or_failed)

  -- `awaitRecovery`
  unfoldable pub await_recovery : Method Error (Unit {0})
  unfolding or_recover
  await_recovery = do
    now ← look H.now
    r ← runner_of
    or_recover (is_some r.violation || r.failed) now

  -- The loop over the CRs: the errors.
  unfoldable pub delete_crs : List String → Method Error (List (RunError Error))
  delete_crs [] = pure []
  delete_crs (cr ∷ crs) = do
    e ← attempt (try (delete_cr cr) H.delete_cr)
    rest ← delete_crs crs
    pure (listed e ++ rest)

  -- The wait for the namespace to empty, unless the wait before it was cut short.
  unfoldable pub await_empty :
      Option (RunError Error) → Method Error (Bool × Option (RunError Error))
  await_empty (some e) = pure (false, some e)
  await_empty none = do
    answer ← call (await_clean (t.delete + deletion_margin)) H.await_clean
    pure (answer.0, as_error H t answer.1)

  -- `teardownCheckpoint`
  unfoldable pub teardown_checkpoint : Bool → Method Error (Unit {0})
  unfolding checkpoint
  teardown_checkpoint clean = do
    running ← look H.is_running
    when (not running) (raise target_stopped)
    now ← look H.now
    checkpoint H t limit (checkpoint_at now clean) false

  -- The switch of `teardown`.
  unfoldable pub judge_down :
      Bool → Option (RunError Error) → Bool → Method Error (List (RunError Error))
  unfolding teardown_checkpoint
  judge_down true cut clean = pure []
  judge_down false (some e) clean = pure (e ∷ [])
  judge_down false none clean = do e ← attempt (teardown_checkpoint clean); pure (listed e)

  unfoldable pub judge_if_sound :
      Bool × Option (RunError Error) → Method Error (List (RunError Error))
  unfolding judge_down
  judge_if_sound emptied = do
    r ← runner_of
    judge_down (is_some r.violation || r.failed) emptied.1 emptied.0

  -- `teardown`, up to where the deletions are judged: the errors, and how the waits were cut short.
  unfoldable pub delete_and_judge : Method Error (List (RunError Error) × Option (RunError Error))
  unfolding delete_crs await_empty judge_if_sound
  delete_and_judge = do
    quiet_start ← look H.now
    change (on_timeline (λ l. record l { quiet = record l.quiet { start = quiet_start } }))
    slept ← attempt (try (sleep t.stable) H.sleep)
    quiet_end ← look H.now
    change (
        on_timeline (λ l. record l {
          quiet = record l.quiet { end = quiet_end };
          deletion = record l.deletion { start = quiet_end };
        }))
    r ← runner_of
    deletes ← delete_crs r.crs
    emptied ← await_empty slept
    over ← look H.now
    change (
        on_timeline (λ l. record l {
          deletion = record l.deletion { end = over };
          cleaned = if emptied.0 then over else l.cleaned;
        }))
    judged ← judge_if_sound emptied
    pure (deletes ++ judged, emptied.1)

  -- The end of `teardown`: the namespace emptied, and the target stopped.
  unfoldable pub take_down : Option (RunError Error) → Method Error (List (RunError Error))
  take_down cut = do
    emptied ← attempt (try empty H.empty)
    forced ← call force_finalizers H.force_finalizers
    change (on_timeline (λ l. record l { forced = forced.0 }))
    when (has_any forced.0 && not (is_some cut))
        (change (λ r. record r { skipped = r.skipped ++ Note.force_removed forced.0 ∷ [] }))
    stopped ← attempt (try stop H.stop)
    unresolved ← look H.unresolved_owners
    change (λ r. record r { skipped = r.skipped ++ map Note.kept_for unresolved })
    pure (listed emptied ++ (listed (as_error H t forced.1) ++ listed stopped))

  -- `teardown`: the errors that errors.Join joins.
  unfoldable pub teardown : Method Error (List (RunError Error))
  unfolding clear await_recovery delete_and_judge take_down
  teardown = do
    start ← look H.now
    change (λ r. record r { teardown_start = start })
    clear
    r ← runner_of
    skip_all (unapplied r.timeline.faults r.fault_ops)
    recovery ← attempt await_recovery
    judged ← delete_and_judge
    down ← take_down judged.1
    pure (listed recovery ++ (judged.0 ++ down))

  -- `runSequence`, up to its result: the error of the ops, and those of the teardown.
  unfoldable pub run_sequence :
      Libraries → List Op → Method Error (Option (RunError Error) × List (RunError Error))
  unfolding teardown
  run_sequence lib ops = do
    failure ← attempt (apply_ops lib H t limit ops)
    change (λ r. record r { failed = is_some failure })
    down ← teardown
    read_exits H t
    pure (failure, down)
