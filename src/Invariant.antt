-- ===== src/Invariant.antt =====
-- internal/invariant: the checks of one run, pure functions of what was recorded. Here the input of the
-- checks and its queries (invariant.go). An op type is that of the sequence, whose texts are the same.
pub mod Window
pub mod Running
pub mod Recovery
pub mod ErrorLoop
pub mod Quiet
pub mod State
pub mod Attribution
pub mod Deletion
pub mod Restart
pub mod Healing
pub mod Convergence
use botbox.Base.{
  ℕ, zero, suc, ◌+◌, String, Bool, true, false, not, ◌&&◌, ◌||◌, Option, none, some, List, [], ◌∷◌,
  ◌==◌, Bool-eq, if◌then◌else◌, any, filter_by, find?, get_last?, is_some,
}
use botbox.Base.Int.{ℤ, pos, negsuc, ℤ-eq, positive_or, pos_part}
use botbox.Base.Sort.{sort_by}
use botbox.Clock.{Time, is_zero, before, after}
use botbox.Proxy.Request.{Request}
use botbox.Observe.{GroupVersionKind, Key, Key-eq, Version}
use botbox.Observe.Store
use botbox.Observe.Store.{Store}
use botbox.Run.Sequence.{OpType, op_type_beq}

-- The target's timeouts and thresholds as declared, where 0 declares none.
pub record Timeouts : Type 0 where
  pub settle : ℤ
  pub stable : ℤ
  pub delete : ℤ

pub record Thresholds : Type 0 where
  pub err_loop : ℤ
  pub quiet : ℤ

-- What the checks read of a target.
pub record Target : Type 0 where
  pub primary : GroupVersionKind
  pub not_recreated : List GroupVersionKind
  pub timeouts : Timeouts
  pub thresholds : Thresholds

abbrev pub zero_key : Key
zero_key = record {
  gvk = record { group = ""; version = ""; kind = "" };
  namespace = "";
  name = "";
}

pub record Op : Type 0 where
  pub index : ℤ
  pub type : OpType
  pub time : Time
  pub deleted : Key
  pub cr : Key
  pub restored : Bool

pub data SettleResult : Type 0 where
  no_settle converged expired : SettleResult

abbrev pub is_converged : SettleResult → Bool
is_converged converged = true
is_converged _ = false

abbrev pub is_no_settle : SettleResult → Bool
is_no_settle no_settle = true
is_no_settle _ = false

-- The Op of the checkpoints that no op opened.
abbrev pub teardown_op : ℤ
teardown_op = negsuc 0

abbrev pub recovery_op : ℤ
recovery_op = negsuc 1

pub record Checkpoint : Type 0 where
  pub op : ℤ
  pub began : Time
  pub time : Time
  pub settle : SettleResult
  pub stayed : Bool
  pub held : Bool

pub record FaultWindow : Type 0 where
  pub start : Time
  pub end : Time

pub record Exit : Type 0 where
  pub at : Time
  pub restart : Time

-- A nil history is `none`.
pub record Input : Type 0 where
  pub target : Target
  pub requests : List Request
  pub history : Option Store
  pub ops : List Op
  pub checkpoints : List Checkpoint
  pub faults : List FaultWindow
  pub exits : List Exit
  pub teardown : Time
  pub quiet : Time
  pub cleaned : Time
  pub end : Time

unfoldable changes_spec : OpType → Bool
changes_spec OpType.create = true
changes_spec OpType.update = true
changes_spec OpType.recreate = true
changes_spec t = false

unfoldable pub touches_cr : OpType → Bool
unfolding changes_spec
touches_cr t = changes_spec t || op_type_beq t OpType.delete

unfoldable pub on_fixture : OpType → Bool
on_fixture t = op_type_beq t OpType.update_fixture || op_type_beq t OpType.delete_fixture

-- `givesInput`
unfoldable pub gives_input : Op → Bool
unfolding changes_spec
gives_input o = changes_spec o.type || (op_type_beq o.type OpType.update_fixture || o.restored)

-- `changesRun`
unfoldable pub changes_run : Op → Bool
unfolding touches_cr on_fixture
changes_run o =
    touches_cr o.type || (not (o.deleted == zero_key) || (on_fixture o.type || o.restored))

-- A zero end is a fault that outlived the run; one that stopped at `from` is outside.
unfoldable pub overlaps : FaultWindow → Time → Time → Bool
overlaps f from to = not (after f.start to) && (is_zero f.end || after f.end from)

-- The defaults of internal/target, in nanoseconds (30 s, 10 s, 60 s), and 10 requests.
abbrev default_settle : ℕ
default_settle = 30000000000

abbrev default_stable : ℕ
default_stable = 10000000000

abbrev default_delete : ℕ
default_delete = 60000000000

abbrev default_err_loop : ℕ
default_err_loop = 10

-- `timeouts`, each field in the place of its own: a declared one above 0, or the default.
unfoldable pub settle_timeout : Input → ℕ
settle_timeout inp = positive_or inp.target.timeouts.settle default_settle

unfoldable pub stable_timeout : Input → ℕ
stable_timeout inp = positive_or inp.target.timeouts.stable default_stable

unfoldable delete_timeout : Input → ℕ
delete_timeout inp = positive_or inp.target.timeouts.delete default_delete

unfoldable pub err_loop : Input → ℕ
err_loop inp = positive_or inp.target.thresholds.err_loop default_err_loop

-- `quietAllowance`
unfoldable pub quiet_allowance : Input → ℕ
quiet_allowance inp = pos_part inp.target.thresholds.quiet

abbrev checkpoint_time : Option Checkpoint → Time
checkpoint_time none = 0
checkpoint_time (some c) = c.time

-- `end`
unfoldable pub end_of : Input → Time
end_of inp = if not (is_zero inp.end) then inp.end else checkpoint_time (get_last? inp.checkpoints)

unfoldable pub observed : Input → Time → Bool
unfolding end_of
observed inp t = not (is_zero (end_of inp)) && not (before (end_of inp) t)

unfoldable pub faulted : Input → Time → Time → Bool
faulted inp from to = any inp.faults (λ f. overlaps f from to)

abbrev pub window_of : Option Store → Time → Time → List Version
window_of none from to = []
window_of (some s) from to = Store.window s from to

-- `versionsIn`: oldest first.
unfoldable pub versions_in : Input → Time → Time → List Version
versions_in inp from to = sort_by (λ a b. before a.time b.time) (window_of inp.history from to)

unfoldable pub versions : Input → List Version
versions inp = versions_in inp 0 (end_of inp)

-- The last op that passes, or the zero Op.
abbrev zero_op : Op
zero_op = record {
  index = pos 0;
  type = OpType.other "";
  time = 0;
  deleted = zero_key;
  cr = zero_key;
  restored = false;
}

abbrev last_op : (Op → Bool) → List Op → Op → Op
last_op p [] last = last
last_op p (o ∷ ops) last = last_op p ops (if p o then o else last)

-- `opBy`
unfoldable op_by : Input → Time → Op
op_by inp t = last_op (λ o. not (after o.time t)) inp.ops zero_op

-- `opBefore`
unfoldable pub op_before : Input → Time → Op
op_before inp t = last_op (λ o. before o.time t) inp.ops zero_op

-- `op`: the op of this index, wherever it stands.
unfoldable pub op_of : Input → ℤ → Option Op
op_of inp index = find? inp.ops (λ o. o.index == index)
