-- ===== src/Generate/Faulted.antt =====
-- internal/generate/faults.go: where a fault may start, and the ops with one inserted.
pub mod Inserted
pub mod Drawn
use botbox.Base.{
  ℕ, suc, ◌+◌, Bool, not, ◌&&◌, Option, none, some, List, [], ◌∷◌, ◌++◌, if◌then◌else◌, take, drop,
}
use botbox.Base.Int.{pos}
use botbox.Run.Sequence.{OpType, Fault, Op, settles, is_one_of}
use botbox.Generate.Checkpointed.{a_settle, set_untils}

abbrev pub unfaulted_starts : List OpType
unfaulted_starts = OpType.settle ∷ OpType.restart ∷ OpType.delete_managed ∷ []

-- `eligibleStarts`: the loop, at position `s`, where the op before settles or does not.
unfoldable pub starts_from : ℕ → Bool → List Op → List ℕ
starts_from s after_settle [] = []
starts_from s after_settle (o ∷ ops) =
    let rest = starts_from (suc s) (settles o) ops in
    if after_settle && not (is_one_of unfaulted_starts o.type) then s ∷ rest else rest

unfoldable pub eligible_starts : List Op → List ℕ
unfolding starts_from
eligible_starts [] = []
eligible_starts (o ∷ ops) = starts_from 1 (settles o) ops

abbrev pub one_more : Option ℕ → Option ℕ
one_more none = none
one_more (some n) = some (suc n)

-- How many ops from the start on are in the span of the fault: up to the first that settles.
unfoldable pub span : List Op → Option ℕ
span [] = none
span (o ∷ ops) = let rest = one_more (span ops) in if settles o then some 1 else rest

unfoldable pub reindex : ℕ → List Op → List Op
reindex i [] = []
reindex i (o ∷ ops) = record o { index = pos i } ∷ reindex (suc i) ops

-- The fault op, whose fault ends at the op of this index.
abbrev pub fault_op : Fault → ℕ → Op
fault_op fault ends = record a_settle {
  type = OpType.fault;
  fault =
      some (record fault { until = record { op = some (pos ends); count = pos 0; for = pos 0 } });
}

-- The end of `faulted`, for a fault drawn at `s` whose span is of `n` ops.
unfoldable pub insert_fault : List Op → ℕ → Fault → ℕ → List Op
unfolding reindex set_untils
insert_fault ops s fault n =
    let spanned = drop s ops in
    set_untils (λ i o. o.until) 0
      (reindex 0 (
        take s ops
        ++ (fault_op fault (s + 1 + n) ∷ (take n spanned ++ (a_settle ∷ drop n spanned)))))

abbrev or_unfaulted : Option ℕ → List Op → ℕ → Fault → List Op
or_unfaulted none ops s fault = ops
or_unfaulted (some n) ops s fault = insert_fault ops s fault n

-- `faulted`, once a start and a fault are drawn.
unfoldable pub faulted_at : List Op → ℕ → Fault → List Op
unfolding span insert_fault
faulted_at ops s fault = or_unfaulted (span (drop s ops)) ops s fault
