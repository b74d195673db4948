-- ===== src/Run/Runner/Engine.antt =====
-- internal/run/checks.go: what the checks read of a run, and of a run at an instant (`asOf`).
use botbox.Base.{
  String, not, Option, none, some, List, map, ◌==◌, String-eq, if◌then◌else◌, find?, filter_by,
}
use botbox.Base.Int.{ℤ-eq}
use botbox.Clock.{is_zero}
use botbox.Proxy.Request.{Request}
use botbox.Observe.{GroupVersionKind, Key, kind_name}
use botbox.Observe.Store.{Store}
use botbox.Invariant
use botbox.Invariant.{SettleResult, teardown_op, zero_key}
use botbox.Run.Runner.{Window, AppliedOp, Checkpoint, Exit, Timeline, RunTarget, Input}

-- `managedKind` of internal/run/sequence.go
unfoldable pub managed_kind : List GroupVersionKind → String → Option GroupVersionKind
managed_kind manages declared = find? manages (λ gvk. kind_name gvk == declared)

-- Its zero value where there is no such kind.
abbrev kind_or_zero : Option GroupVersionKind → GroupVersionKind
kind_or_zero none = zero_key.gvk
kind_or_zero (some gvk) = gvk

abbrev key_in : String → GroupVersionKind → String → Key
key_in namespace gvk name =
    if name == "" then zero_key else record { gvk = gvk; namespace = namespace; name = name }

-- One round of the loop of `engineOps`.
unfoldable pub engine_op : RunTarget → String → AppliedOp → Invariant.Op
unfolding managed_kind
engine_op t namespace applied = record {
  index = applied.op.index;
  type = applied.op.type;
  time = applied.at;
  deleted =
      key_in namespace (kind_or_zero (managed_kind t.manages applied.op.kind)) applied.deleted;
  cr = key_in namespace t.judged.primary applied.cr;
  restored = applied.restored;
}

-- `settleResult`
unfoldable pub settle_result : Checkpoint → SettleResult
settle_result c =
    if c.op == teardown_op
    then SettleResult.no_settle
    else if c.converged
    then SettleResult.converged
    else SettleResult.expired

-- `engineCheckpoint`
unfoldable pub engine_checkpoint : Checkpoint → Invariant.Checkpoint
unfolding settle_result
engine_checkpoint c = record {
  op = c.op;
  began = c.began;
  time = c.at;
  settle = settle_result c;
  stayed = c.stayed;
  held = c.held;
}

abbrev window_of : Window → Invariant.FaultWindow
window_of w = record { start = w.start; end = w.end }

-- `engineFaults`
unfoldable pub engine_faults : List Window → List Invariant.FaultWindow
engine_faults windows = map window_of (filter_by (λ w. not (is_zero w.start)) windows)

-- `engineExits`
abbrev engine_exit : Exit → Invariant.Exit
engine_exit e = record { at = e.at; restart = e.restart }

-- What `asOf` and `engineInput` both hand over; what they do not name is zero.
unfoldable pub engine_of : RunTarget → List Request → Store → Timeline → Invariant.Input
unfolding engine_op engine_checkpoint engine_faults
engine_of t requests objects timeline = record {
  target = t.judged;
  requests = requests;
  history = some objects;
  ops = map (engine_op t timeline.namespace) timeline.ops;
  checkpoints = map engine_checkpoint timeline.checkpoints;
  faults = engine_faults timeline.faults;
  exits = map engine_exit timeline.exits;
  teardown = 0;
  quiet = 0;
  cleaned = 0;
  end = 0;
}

-- `engineInput`
unfoldable pub engine_input : RunTarget → Input → Invariant.Input
unfolding engine_of
engine_input t inp = record (engine_of t inp.requests inp.objects inp.timeline) {
  teardown = inp.timeline.deletion.start;
  quiet = inp.timeline.quiet.start;
  cleaned = inp.timeline.cleaned;
  end = inp.timeline.deletion.end;
}
