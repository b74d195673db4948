-- ===== src/Generate/Faulted/Drawn.antt =====
-- internal/generate/faults.go, `faulted`, of the ops that `checkpointed` leaves judged.
use botbox.Base.{ℕ, true, some, List, [], ◌∷◌, ◌≡◌, get_elem?}
use botbox.Base.Int.{pos}
use botbox.Run.Sequence.{OpType, Fault, Op, settles}

data LastSettles : List Op → Type 0 where
  alone : {o : Op} → settles o ≡ true → LastSettles (o ∷ [])
  before : {o : Op} {ops : List Op} → LastSettles ops → LastSettles (o ∷ ops)

-- The op at s injects the fault that was drawn, with its match and its action, until the op at `ends`:
-- there the run waits to settle.
pub record InjectsUntil (fault : Fault) (s ends : ℕ) (out : List Op) : Type 0 where
  pub op : Op
  pub at_start : get_elem? out s ≡ some op
  pub is_fault : op.type ≡ OpType.fault
  pub of_index : op.index ≡ pos s
  pub injected : Fault
  pub carries : op.fault ≡ some injected
  pub same_match : injected.match ≡ fault.match
  pub same_action : injected.action ≡ fault.action
  pub stops_at : injected.until.op ≡ some (pos ends)
  pub by_op_alone : (injected.until.count ≡ pos 0) × (injected.until.for ≡ pos 0)
  pub end : Op
  pub at_end : get_elem? out ends ≡ some end
  pub is_settle : end.type ≡ OpType.settle
  pub end_index : end.index ≡ pos ends
