-- ===== src/Run/Shrink/Milder.antt =====
-- How far halving goes.
use botbox.Base.{ℕ, ◌+◌, ◌<◌, ◌≤◌, ◌≡◌, refl, Option, none, some, arith}
use botbox.Base.Int.{ℤ, pos, negsuc, pos_part}
use botbox.Run.Sequence.{Fault, Op}
use botbox.Run.Shrink.{
  halved, half_count, min_fault_duration, Axis, count_axis, for_axis, delay_axis, carried_by,
  half_of, with_value, milder, milder_fault, milder_of, fault_value,
}

-- A half is milder, and still a fault: a duration stays at `minFaultDuration` or above, a count above 0.
abbrev least : Axis → ℕ
least count_axis = 1
least for_axis = min_fault_duration
least delay_axis = min_fault_duration

-- What a halving may answer for an op that carries `v`.
abbrev pub Halves : Axis → ℤ → Option ℤ → Type 0
Halves a v none = pos_part v ≤ least a
Halves a v (some h) = (pos_part h < pos_part v) × (least a ≤ pos_part h)

-- Halving an axis offers a value below what the op carries and no lower than the axis's floor, which
-- is 10 ms for a duration and 1 for a count. It offers nothing only where the op carries no more than
-- that floor.
pub half_of-Halves : (a : Axis) (v : ℤ) → Halves a v (half_of a v)
unfolding halved half_count
half_of-Halves count_axis (pos c) = ground arith
half_of-Halves count_axis (negsuc n) = ground arith
half_of-Halves for_axis (pos d) = ground arith
half_of-Halves for_axis (negsuc n) = ground arith
half_of-Halves delay_axis (pos d) = ground arith
half_of-Halves delay_axis (negsuc n) = ground arith

-- What an op's fault carries on all axes.
abbrev pub fault_weight : Option Fault → ℕ
fault_weight none = 0
fault_weight (some f) = pos_part f.until.count + pos_part f.until.for + pos_part f.action.delay

-- The op with its fault halved carries less.
abbrev Lighter : Op → Option Op → Type 0
Lighter o none = Unit
Lighter o (some m) = fault_weight m.fault < fault_weight o.fault

with_value-lt :
    (a : Axis) (f : Fault) (v : ℤ)
    → pos_part v < pos_part (carried_by a f)
    → fault_weight (some (with_value a f v)) < fault_weight (some f)
with_value-lt count_axis f v h = omega arith
with_value-lt for_axis f v h = omega arith
with_value-lt delay_axis f v h = omega arith

carried_by-with_value : (a : Axis) (f : Fault) (v : ℤ) → carried_by a (with_value a f v) ≡ v
carried_by-with_value count_axis f v = refl
carried_by-with_value for_axis f v = refl
carried_by-with_value delay_axis f v = refl

-- What a milder op carries, on all axes and on the halved one.
abbrev pub IsMilder : Axis → Op → Option Op → Type 0
IsMilder a o none = Unit
IsMilder a o (some m) =
    (fault_weight m.fault < fault_weight o.fault) × (fault_value a m.fault < fault_value a o.fault)

milder_fault-IsMilder :
    (a : Axis) (o : Op) (f : Fault) (h : Option ℤ)
    → o.fault ≡ some f
    → Halves a (carried_by a f) h
    → IsMilder a o (milder_fault a o f h)
milder_fault-IsMilder a o f none e b = tt
milder_fault-IsMilder a o f (some v) e b =
    rw e (with_value-lt a f v b.0, rw (carried_by-with_value a f v) b.0)

milder_of-IsMilder :
    (a : Axis) (o : Op) (f : Option Fault) → o.fault ≡ f → IsMilder a o (milder_of a o f)
milder_of-IsMilder a o none e = tt
milder_of-IsMilder a o (some f) e =
    milder_fault-IsMilder a o f (half_of a (carried_by a f)) e (half_of-Halves a (carried_by a f))

pub milder-IsMilder : (a : Axis) (o : Op) → IsMilder a o (milder a o)
unfolding milder
milder-IsMilder a o = milder_of-IsMilder a o o.fault refl
