-- ===== src/Run/Shrink/Weight.antt =====
-- What a sequence weighs: its ops, and what their faults carry. Every simplification lowers it.
use botbox.Base.{
  ℕ, zero, suc, ◌+◌, ◌<◌, ◌≡◌, refl, Option, none, some, List, [], ◌∷◌, arith, length, get_elem?,
  set,
}
use botbox.Run.Sequence.{Fault, Op, Sequence}
use botbox.Run.Shrink.{delete_at, move_fault, renumber, without}
use botbox.Run.Shrink.Milder.{fault_weight}

abbrev ops_weight : List Op → ℕ
ops_weight [] = 0
ops_weight (o ∷ ops) = suc (fault_weight o.fault + ops_weight ops)

abbrev pub weight : Sequence → ℕ
weight s = ops_weight s.ops

move_fault-weight : (i : ℕ) (f : Option Fault) → fault_weight (move_fault i f) ≡ fault_weight f
move_fault-weight i none = refl
move_fault-weight i (some f) = refl

renumber-weight : (i j : ℕ) (ops : List Op) → ops_weight (renumber i j ops) ≡ ops_weight ops
unfolding renumber
renumber-weight i j [] = refl
renumber-weight i j (o ∷ ops) =
    omega (arith, move_fault-weight i o.fault, renumber-weight i (suc j) ops)

length-renumber : (i j : ℕ) (ops : List Op) → length (renumber i j ops) ≡ length ops
unfolding renumber
length-renumber i j [] = refl
length-renumber i j (o ∷ ops) = omega (arith, length-renumber i (suc j) ops)

delete_at-weight :
    (i : ℕ) (ops : List Op) → i < length ops → ops_weight (delete_at i ops) < ops_weight ops
delete_at-weight i [] h = absurd (omega arith)
delete_at-weight zero (o ∷ ops) h = omega arith
delete_at-weight (suc i) (o ∷ ops) h = omega (arith, delete_at-weight i ops (omega arith))

length-delete_at :
    (i : ℕ) (ops : List Op) → i < length ops → suc (length (delete_at i ops)) ≡ length ops
length-delete_at i [] h = absurd (omega arith)
length-delete_at zero (o ∷ ops) h = refl
length-delete_at (suc i) (o ∷ ops) h = omega (arith, length-delete_at i ops (omega arith))

pub without-weight : (s : Sequence) (i : ℕ) → i < length s.ops → weight (without s i) < weight s
unfolding without
without-weight s i h =
    omega (arith, renumber-weight i 0 (delete_at i s.ops), delete_at-weight i s.ops h)

pub length-without :
    (s : Sequence) (i : ℕ) → i < length s.ops → suc (length (without s i).ops) ≡ length s.ops
unfolding without
length-without s i h =
    omega (arith, length-renumber i 0 (delete_at i s.ops), length-delete_at i s.ops h)

pub set-weight :
    (ops : List Op) (i : ℕ) {o : Op} (m : Op)
    → get_elem? ops i ≡ some o
    → fault_weight m.fault < fault_weight o.fault
    → ops_weight (set ops i m) < ops_weight ops
set-weight [] i m e h = absurd (ground arith)
set-weight (x ∷ ops) zero m e h = ground arith
set-weight (x ∷ ops) (suc i) m e h = omega (arith, set-weight ops i m e h)
