-- ===== src/Generate/Checkpointed.antt =====
-- internal/generate/generate.go, `checkpointed`: the settle waits about the drawn ops.
pub mod Kinds
pub mod Wraps
pub mod Judged
use botbox.Base.{
  ℕ, zero, suc, ◌+◌, String, Bool, true, false, not, ◌&&◌, ◌||◌, Option, none, some, List, [], ◌∷◌,
  ◌++◌, if◌then◌else◌, length,
}
use botbox.Base.Int.{ℤ, pos}
use botbox.Run.Sequence.{OpType, op_type_beq, Op, settles}

-- run.Op{Type: run.OpSettle}
abbrev pub a_settle : Op
a_settle = record {
  index = pos 0;
  type = OpType.settle;
  cr = "";
  kind = "";
  nth = none;
  name = "";
  obj = none;
  patch = none;
  fault = none;
  until = none;
  no_settle = false;
}

-- The variables of the loop: `judged`, and `settled`.
abbrev pub Judged : Type 0
Judged = List Op × Bool

-- `emit`
unfoldable pub emit : Op → Judged → Judged
emit o (judged, settled) = (judged ++ record o { index = pos (length judged) } ∷ [], settles o)

abbrev pub wants_settled : Op → Bool
wants_settled o = op_type_beq o.type OpType.restart || op_type_beq o.type OpType.delete_managed

-- The op after this one is a settle; there may be none.
abbrev pub next_is_settle : List Op → Bool
next_is_settle [] = false
next_is_settle (o ∷ ops) = op_type_beq o.type OpType.settle

abbrev pub is_last : List Op → Bool
is_last [] = true
is_last (o ∷ ops) = false

-- Whether the switch of the loop emits a settle, after an op that leaves `settled` so.
abbrev pub settles_after : Op → List Op → Bool → Bool
settles_after o rest settled =
    (op_type_beq o.type OpType.restart && not (next_is_settle rest))
    || (is_last rest && not settled)

abbrev pub emit_if : Bool → Judged → Judged
emit_if true st = emit a_settle st
emit_if false st = st

-- The loop of `checkpointed`.
unfoldable pub checkpoint_from : List Op → Judged → Judged
unfolding emit
checkpoint_from [] st = st
checkpoint_from (o ∷ rest) st =
    let before = emit_if (wants_settled o && not st.1) st in
    let emitted = emit o before in
    checkpoint_from rest (emit_if (settles_after o rest emitted.1) emitted)

-- Where the first op that settles stands, of ops that begin at position `i`.
unfoldable pub next_settling : ℕ → List Op → Option ℕ
next_settling i [] = none
next_settling i (o ∷ ops) = if settles o then some i else next_settling (suc i) ops

abbrev pub until_of : Option ℕ → Option ℤ → Option ℤ
until_of none otherwise = otherwise
until_of (some i) otherwise = some (pos i)

-- The loop over what was emitted, from position `i` on. `otherwise` is the until of an op that none
-- settles after.
unfoldable pub set_untils : (ℕ → Op → Option ℤ) → ℕ → List Op → List Op
unfolding next_settling
set_untils otherwise i [] = []
set_untils otherwise i (o ∷ ops) =
    let rest = set_untils otherwise (suc i) ops in
    if op_type_beq o.type OpType.delete_fixture
    then record o { until = until_of (next_settling (suc i) ops) (otherwise i o) } ∷ rest
    else o ∷ rest

-- slices.IndexFunc gives -1 where no op settles: the op then comes back at its own place.
abbrev pub at_itself : ℕ → Op → Option ℤ
at_itself i o = some (pos i)

-- `checkpointed`
unfoldable pub checkpointed : List Op → List Op
unfolding checkpoint_from set_untils
checkpointed ops = set_untils at_itself 0 (checkpoint_from ops ([], false)).0
