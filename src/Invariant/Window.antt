-- ===== src/Invariant/Window.antt =====
-- internal/invariant/window.go: the stretches in which a run must have gone still.
pub mod Undisturbed
use botbox.Base.{
  ℕ, ◌+◌, ◌-◌, Bool, false, not, ◌&&◌, ◌||◌, Option, none, some, List, [], ◌∷◌, ◌++◌, ◌==◌,
  if◌then◌else◌, find?, length, ltb, drop,
}
use botbox.Base.Int.{ℤ, ℤ-eq}
use botbox.Clock.{Time, is_zero, before, after}
use botbox.Invariant.{Input, Op, Checkpoint, is_no_settle, stable_timeout, observed, faulted}

-- Which window a message names: after the op of this index, or the teardown's.
pub data What : Type 0 where
  after_op : ℤ → What
  before_teardown : What

pub record Quiet : Type 0 where
  pub what : What
  pub start : Time
  pub end : Time

-- `tornDown`
unfoldable pub torn_down : Input → Time → Bool
torn_down inp t = not (is_zero inp.teardown) && after t inp.teardown

abbrev checkpoint_time : Option Checkpoint → Option Time
checkpoint_time none = none
checkpoint_time (some c) = some c.time

-- `settleEnd`: `none` where it answers that the op has no window.
unfoldable pub settle_end : Input → ℤ → Option Time
settle_end inp op =
    checkpoint_time (find? inp.checkpoints (λ c. c.op == op && not (is_no_settle c.settle)))

-- The next op reopened the window.
abbrev pub reopened : List Op → Time → Bool
reopened [] t = false
reopened (next ∷ ops) t = before next.time t

-- The window of one op, whose settle wait ended then.
abbrev pub window_from : Input → Op → List Op → Option Time → Option Quiet
window_from inp o rest none = none
window_from inp o rest (some settled) =
    let end = settled + stable_timeout inp in
    if not (observed inp end) || (faulted inp o.time end || torn_down inp end)
    then none
    else if reopened rest end
    then none
    else some (record { what = after_op o.index; start = settled; end = end })

abbrev pub cons_option {ℓ} : {A : Type ℓ} → Option A → List A → List A
cons_option none xs = xs
cons_option (some x) xs = x ∷ xs

-- The loop of `quietWindows` over the ops.
unfoldable pub op_windows : Input → List Op → List Quiet
op_windows inp [] = []
op_windows inp (o ∷ rest) =
    cons_option (window_from inp o rest (settle_end inp o.index)) (op_windows inp rest)

-- `teardownWindow`
unfoldable pub teardown_window : Input → Option Quiet
teardown_window inp =
    if is_zero inp.quiet
      || (is_zero inp.teardown
          || (not (observed inp inp.teardown) || faulted inp inp.quiet inp.teardown))
    then none
    else some (record { what = before_teardown; start = inp.quiet; end = inp.teardown })

-- `quietWindows`
unfoldable pub quiet_windows : Input → List Quiet
unfolding op_windows teardown_window
quiet_windows inp = op_windows inp inp.ops ++ cons_option (teardown_window inp) []

-- `MaxEvidence`, and `Recent`: the latest entries, and of how many.
abbrev pub max_evidence : ℕ
max_evidence = 20

pub record Excerpt {ℓ} (A : Type ℓ) : Type ℓ where
  pub quoted : List A
  pub total : ℕ

unfoldable pub recent {ℓ} : {A : Type ℓ} → List A → Excerpt A
recent evidence =
    if ltb max_evidence (length evidence)
    then record { quoted = drop (length evidence - max_evidence) evidence; total = length evidence }
    else record { quoted = evidence; total = length evidence }
