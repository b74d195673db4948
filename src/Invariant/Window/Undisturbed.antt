-- ===== src/Invariant/Window/Undisturbed.antt =====
-- What happens during a quiet window.
use botbox.Base.{
  ◌+◌, ◌≤◌, ◌≡◌, refl, Bool, true, false, not, ◌||◌, ◌⊎◌, Option, none, some, List, [], ◌∷◌, arith,
  All, All-append, any, if◌then◌else◌, inl, inr,
}
use botbox.Clock.{Time, is_zero}
use botbox.Invariant.{Input, Op, FaultWindow, stable_timeout, overlaps, observed, faulted}
use botbox.Invariant.Window.{
  Quiet, torn_down, settle_end, reopened, window_from, op_windows, teardown_window, quiet_windows,
  cons_option,
}

-- Nothing disturbs the window: the run observed its end, no teardown came before that, no fault overlaps
-- it, and each of these ops came by its start or from its end on.
pub record IsUndisturbed (inp : Input) (ops : List Op) (w : Quiet) : Type 0 where
  pub seen : observed inp w.end ≡ true
  pub standing : torn_down inp w.end ≡ false
  pub fault_free : faulted inp w.start w.end ≡ false
  pub apart : All (λ (o : Op). (o.time ≤ w.start) ⊎ (w.end ≤ o.time)) ops

abbrev pub Reached : Time → Option Time → Type 0
Reached t none = Unit
Reached t (some settled) = t ≤ settled

-- The ops are in the order of their times, from `t` on, and no settle wait ended before its op.
abbrev IsTimed : Input → Time → List Op → Type 0
IsTimed inp t [] = Unit
IsTimed inp t (o ∷ ops) =
    (t ≤ o.time) × Reached o.time (settle_end inp o.index) × IsTimed inp o.time ops

-- A fault that is over by a time does not overlap what starts later.
faults_later :
    (fs : List FaultWindow) (from start end : Time)
    → from ≤ start
    → any fs (λ f. overlaps f from end) ≡ false
    → any fs (λ f. overlaps f start end) ≡ false
unfolding overlaps
faults_later [] from start end h e = refl
faults_later (f ∷ fs) from start end h e =
    ground (arith, faults_later fs from start end h (ground arith))

faulted_later :
    (inp : Input) (from start end : Time)
    → from ≤ start
    → faulted inp from end ≡ false
    → faulted inp start end ≡ false
unfolding faulted
faulted_later inp from start end h e = faults_later inp.faults from start end h e

later_ops :
    (inp : Input) (t : Time) (ops : List Op) (end : Time)
    → IsTimed inp t ops
    → end ≤ t
    → (start : Time) → All (λ (o : Op). (o.time ≤ start) ⊎ (end ≤ o.time)) ops
later_ops inp t [] end h le start = tt
later_ops inp t (o ∷ ops) end (h, r, hs) le start =
    (inr (omega arith), later_ops inp o.time ops end hs (omega arith) start)

following_ops :
    (inp : Input) (t : Time) (ops : List Op) (start end : Time)
    → IsTimed inp t ops
    → reopened ops end ≡ false
    → All (λ (o : Op). (o.time ≤ start) ⊎ (end ≤ o.time)) ops
following_ops inp t [] start end h e = tt
following_ops inp t (o ∷ ops) start end (h, r, hs) e =
    (inr (ground arith), later_ops inp o.time ops end hs (ground arith) start)

abbrev Each : (Quiet → Type 0) → Option Quiet → Type 0
Each P none = Unit
Each P (some w) = P w

Each-if :
    (P : Quiet → Type 0) (b : Bool) (o : Option Quiet)
    → (b ≡ false → Each P o)
    → Each P (if b then none else o)
Each-if P true o h = tt
Each-if P false o h = h refl

abbrev From : Time → Input → List Op → Quiet → Type 0
From t inp ops w = (t ≤ w.start) × IsUndisturbed inp ops w

window_from-IsUndisturbed :
    (inp : Input) (t : Time) (o : Op) (ops : List Op) (settled : Option Time)
    → t ≤ o.time
    → Reached o.time settled
    → IsTimed inp o.time ops
    → Each (From t inp (o ∷ ops)) (window_from inp o ops settled)
window_from-IsUndisturbed inp t o ops none h r hs = tt
window_from-IsUndisturbed inp t o ops (some settled) h r hs =
    let end = settled + stable_timeout inp in
    let disturbed = not (observed inp end) || (faulted inp o.time end || torn_down inp end) in
    Each-if (From t inp (o ∷ ops)) disturbed _ (λ e.
      Each-if (From t inp (o ∷ ops)) (reopened ops end) _ (λ k. (
        omega arith,
        record {
          seen = ground arith;
          standing = ground arith;
          fault_free = faulted_later inp o.time settled end r (ground arith);
          apart = (inl r, following_ops inp o.time ops settled end hs k);
        },
      )))

From-earlier :
    (inp : Input) (t : Time) (o : Op) (ops : List Op) (w : Quiet)
    → t ≤ o.time
    → From o.time inp ops w
    → From t inp (o ∷ ops) w
From-earlier inp t o ops w h (le, u) = (
  omega arith,
  record {
    seen = u.seen;
    standing = u.standing;
    fault_free = u.fault_free;
    apart = (inl le, u.apart);
  },
)

All-keep {ℓ} :
    {A : Type ℓ} {P Q : A → Type 0} (xs : List A) → ((x : A) → P x → Q x) → All P xs → All Q xs
All-keep [] f h = tt
All-keep (x ∷ xs) f (p, h) = (f x p, All-keep xs f h)

All-cons_option :
    (P : Quiet → Type 0) (o : Option Quiet) (ws : List Quiet)
    → Each P o
    → All P ws
    → All P (cons_option o ws)
All-cons_option P none ws e h = h
All-cons_option P (some w) ws e h = (e, h)

op_windows-From :
    (inp : Input) (t : Time) (ops : List Op)
    → IsTimed inp t ops
    → All (From t inp ops) (op_windows inp ops)
unfolding op_windows
op_windows-From inp t [] h = tt
op_windows-From inp t (o ∷ ops) (h, r, hs) =
    All-cons_option (From t inp (o ∷ ops)) (window_from inp o ops (settle_end inp o.index))
      (op_windows inp ops) (window_from-IsUndisturbed inp t o ops (settle_end inp o.index) h r hs)
      (All-keep (op_windows inp ops) (λ w u. From-earlier inp t o ops w h u)
        (op_windows-From inp o.time ops hs))

-- The ops came before the run went quiet for the teardown, if it did.
abbrev OverBy : Time → List Op → Type 0
OverBy t ops = All (λ (o : Op). (t ≡ 0) ⊎ (o.time ≤ t)) ops

over_apart :
    (q end : Time) (ops : List Op)
    → is_zero q ≡ false
    → OverBy q ops
    → All (λ (o : Op). (o.time ≤ q) ⊎ (end ≤ o.time)) ops
over_apart q end [] z h = tt
over_apart q end (o ∷ ops) z (h, hs) = (ground arith, over_apart q end ops z hs)

teardown_stands : (inp : Input) → torn_down inp inp.teardown ≡ false
unfolding torn_down
teardown_stands inp = ground arith

teardown_window-IsUndisturbed :
    (inp : Input)
    → OverBy inp.quiet inp.ops
    → Each (IsUndisturbed inp inp.ops) (teardown_window inp)
unfolding teardown_window
teardown_window-IsUndisturbed inp h =
    Each-if (IsUndisturbed inp inp.ops)
      (is_zero inp.quiet
        || (is_zero inp.teardown
            || (not (observed inp inp.teardown) || faulted inp inp.quiet inp.teardown)))
      _
      (λ e. record {
        seen = ground arith;
        standing = teardown_stands inp;
        fault_free = ground arith;
        apart = over_apart inp.quiet inp.teardown inp.ops (ground arith) h;
      })

-- Where the ops are in the order of their times, none later than the run's going quiet for the teardown,
-- and no settle wait ended before its op: in every quiet window the target was left alone. The run
-- observed its end, no teardown came before that, no fault overlaps it, and no op falls inside it.
pub quiet_windows-IsUndisturbed :
    (inp : Input)
    → IsTimed inp 0 inp.ops
    → OverBy inp.quiet inp.ops
    → All (IsUndisturbed inp inp.ops) (quiet_windows inp)
unfolding quiet_windows
quiet_windows-IsUndisturbed inp h k =
    All-append (IsUndisturbed inp inp.ops) (op_windows inp inp.ops)
      (cons_option (teardown_window inp) [])
      (All-keep (op_windows inp inp.ops) (λ w u. u.1) (op_windows-From inp 0 inp.ops h))
      (All-cons_option (IsUndisturbed inp inp.ops) (teardown_window inp) []
        (teardown_window-IsUndisturbed inp k) tt)
