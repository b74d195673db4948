-- ===== src/Generate/Checkpointed/Kinds.antt =====
-- internal/generate/generate.go, `checkpointed`: which kinds of op settle, and which want a settle wait.
use botbox.Base.{Bool, true, false, not, ◌&&◌, ◌||◌, ◌≡◌, refl, arith}
use botbox.Run.Sequence.{OpType, op_type_beq, Op, settles}

pub and_false : (b : Bool) → (b && false) ≡ false
and_false true = refl
and_false false = refl

pub or_true : (b : Bool) → (b || true) ≡ true
or_true true = refl
or_true false = refl

unsettled_as :
    (t : OpType) (o : Op)
    → (op_type_beq t OpType.restart || op_type_beq t OpType.delete_fixture) ≡ true
    → settles (record o { type = t }) ≡ false
unfolding settles
unsettled_as OpType.restart o h = and_false (not o.no_settle)
unsettled_as OpType.delete_fixture o h = and_false (not o.no_settle)
unsettled_as OpType.create o h = ground arith
unsettled_as OpType.update o h = ground arith
unsettled_as OpType.delete o h = ground arith
unsettled_as OpType.recreate o h = ground arith
unsettled_as OpType.settle o h = ground arith
unsettled_as OpType.fault o h = ground arith
unsettled_as OpType.delete_managed o h = ground arith
unsettled_as OpType.update_fixture o h = ground arith
unsettled_as (OpType.other s) o h = ground arith

-- Neither a restart nor the delete of a fixture settles.
pub unsettled :
    (o : Op)
    → (op_type_beq o.type OpType.restart || op_type_beq o.type OpType.delete_fixture) ≡ true
    → settles o ≡ false
unsettled o h = unsettled_as o.type o h

pub unwanted_as :
    (t : OpType)
    → op_type_beq t OpType.settle ≡ true
    → (op_type_beq t OpType.restart || op_type_beq t OpType.delete_managed) ≡ false
unwanted_as OpType.settle h = refl
unwanted_as OpType.restart h = ground arith
unwanted_as OpType.delete_managed h = ground arith
unwanted_as OpType.delete_fixture h = refl
unwanted_as OpType.create h = refl
unwanted_as OpType.update h = refl
unwanted_as OpType.delete h = refl
unwanted_as OpType.recreate h = refl
unwanted_as OpType.fault h = refl
unwanted_as OpType.update_fixture h = refl
unwanted_as (OpType.other s) h = refl
