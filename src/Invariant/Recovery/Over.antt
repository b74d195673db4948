-- ===== src/Invariant/Recovery/Over.antt =====
-- When the faults' excuse is over.
use botbox.Base.{
  ◌≤◌, ◌<◌, ◌≡◌, refl, Bool, false, not, ◌&&◌, List, [], ◌∷◌, arith, All, any, ap, ◌∙◌, Bool-cases,
  inl, inr, if◌then◌else◌,
}
use botbox.Clock.{Time, after, later}
use botbox.Invariant.{Input, Checkpoint, Exit, FaultWindow, is_converged, overlaps, faulted}
use botbox.Invariant.Running.{settled_by}
use botbox.Invariant.Recovery.{
  last_converged_in, last_converged, stopped_since, fault_span, faults_owed, faults_excuse,
  counts_exit, exits_owed, owed, recovering,
}

-- What the loop of `lastConverged` makes of one checkpoint.
abbrev seen : Checkpoint → Time → Time → Time
seen c t converged =
    if is_converged c.settle && (not (after c.time t) && after c.time converged)
    then c.time
    else converged

last_converged_in-acc : (cs : List Checkpoint) (t c : Time) → c ≤ last_converged_in cs t c
unfolding last_converged_in
last_converged_in-acc [] t c = omega arith
last_converged_in-acc (k ∷ cs) t c = ground (arith, last_converged_in-acc cs t (seen k t c))

last_converged_in-le : (cs : List Checkpoint) (t c : Time) → c ≤ t → last_converged_in cs t c ≤ t
unfolding last_converged_in
last_converged_in-le [] t c h = h
last_converged_in-le (k ∷ cs) t c h = last_converged_in-le cs t (seen k t c) (ground arith)

-- A convergence counts at each time from then on.
last_converged_in_mono :
    (cs : List Checkpoint) (t u c d : Time)
    → last_converged_in cs t c ≤ u
    → c ≤ d
    → last_converged_in cs t c ≤ last_converged_in cs u d
unfolding last_converged_in
last_converged_in_mono [] t u c d h k = k
last_converged_in_mono (x ∷ cs) t u c d h k =
    let counted = last_converged_in-acc cs t (seen x t c) in
    last_converged_in_mono cs t u (seen x t c) (seen x u d) h (ground arith)

-- Each fault ended by this time.
abbrev pub EndedBy : Time → List FaultWindow → Type 0
EndedBy r fs = All (λ (f : FaultWindow). (0 < f.end) × (f.end ≤ r)) fs

EndedBy-mono : (r u : Time) (fs : List FaultWindow) → r ≤ u → EndedBy r fs → EndedBy u fs
EndedBy-mono r u [] h e = tt
EndedBy-mono r u (f ∷ fs) h (e, es) = ((e.0, omega arith), EndedBy-mono r u fs h es)

ended-overlaps :
    (r u : Time) (fs : List FaultWindow)
    → r ≤ u
    → EndedBy r fs
    → any fs (λ f. overlaps f u u) ≡ false
unfolding overlaps
ended-overlaps r u [] h e = refl
ended-overlaps r u (f ∷ fs) h (e, es) = ground (arith, ended-overlaps r u fs h es)

ended-span : (t r : Time) (fs : List FaultWindow) → EndedBy r fs → fault_span t r fs (0, 0) ≡ (0, 0)
unfolding fault_span stopped_since
ended-span t r [] e = refl
ended-span t r (f ∷ fs) (e, es) = ground (arith, ended-span t r fs es)

last_converged-le : (inp : Input) (u : Time) → last_converged inp u ≤ u
unfolding last_converged
last_converged-le inp u = last_converged_in-le inp.checkpoints u 0 (omega arith)

ended-excuse :
    (inp : Input) (u : Time)
    → EndedBy (last_converged inp u) inp.faults
    → (faulted inp u u ≡ false) × (faults_owed inp u ≡ 0)
unfolding faults_owed faulted
ended-excuse inp u e = (
  ended-overlaps (last_converged inp u) u inp.faults (last_converged-le inp u) e,
  rw (ended-span u (last_converged inp u) inp.faults e) refl,
)

later_excuse :
    (inp : Input) (t u : Time)
    → EndedBy (last_converged inp t) inp.faults
    → last_converged inp t ≤ u
    → faults_excuse inp u ≡ false
unfolding faults_excuse last_converged
later_excuse inp t u e h =
    let counted = last_converged_in_mono inp.checkpoints t u 0 0 h (omega arith) in
    let (free, none_owed) =
      ended-excuse inp u
        (EndedBy-mono (last_converged inp t) (last_converged inp u) inp.faults counted e) in
    ground arith

ended-counts :
    (inp : Input) (t : Time) (active : Bool) (x : Exit)
    → EndedBy (last_converged inp t) inp.faults
    → counts_exit inp t (last_converged inp t) active x ≡ false
unfolding counts_exit
ended-counts inp t active x e = elim (Bool-cases (after x.at (last_converged inp t))) [
  | inl a ↦ let out = later_excuse inp t x.at e (ground arith) in ground arith
  | inr a ↦ ground arith
]

ended-exits :
    (inp : Input) (t : Time) (active : Bool) (exits : List Exit)
    → EndedBy (last_converged inp t) inp.faults
    → exits_owed inp t (last_converged inp t) active exits 0 ≡ 0
unfolding exits_owed
ended-exits inp t active [] e = refl
ended-exits inp t active (x ∷ exits) e =
    ap
      (λ (b : Bool).
        exits_owed inp t (last_converged inp t) active exits
          (if b then later 0 (settled_by inp x.restart) else 0))
      (ended-counts inp t active x e)
    ∙ ended-exits inp t active exits e

-- Once the target has converged after every fault ended, nothing excuses it: no exit since then counts,
-- and it is not recovering.
pub recovering-over :
    (inp : Input) (t : Time)
    → EndedBy (last_converged inp t) inp.faults
    → (owed inp t ≡ 0) × (recovering inp t ≡ false)
unfolding recovering owed
recovering-over inp t e =
    let (free, none_owed) = ended-excuse inp t e in
    let exits = ended-exits inp t (faulted inp t t) inp.exits e in
    let nothing : owed inp t ≡ 0 =
      ap (exits_owed inp t (last_converged inp t) (faulted inp t t) inp.exits) none_owed ∙ exits in
    (nothing, ground arith)
