-- ===== src/Invariant/Recovery/Span.antt =====
-- How long a fault that stopped excuses the target.
use botbox.Base.{
  ◌+◌, ◌-◌, ◌≤◌, ◌<◌, ◌≡◌, Bool, true, ◌⊎◌, List, [], ◌∷◌, arith, All, In, here, there,
  if◌then◌else◌, if-cases, inr, sym, ap, subst, ◌∙◌,
}
use botbox.Clock.{Time, later}
use botbox.Invariant.{Input, Exit, FaultWindow, settle_timeout, faulted}
use botbox.Invariant.Running.{settled_by}
use botbox.Invariant.Recovery.{
  last_converged, stopped_since, widened, fault_span, owed_after, faults_owed, counts_exit,
  exits_owed, owed, recovering,
}

-- Faults started after the zero time.
abbrev HasStarts : List FaultWindow → Type 0
HasStarts fs = All (λ (f : FaultWindow). 0 < f.start) fs

-- A span that begins no later and ends no earlier.
abbrev Wider : Time × Time → Time × Time → Type 0
Wider s r = (s.1 ≤ r.1) × ((s.0 ≡ 0) ⊎ (r.0 ≤ s.0))

widened-Wider :
    (f : FaultWindow) (s r : Time × Time) → 0 < f.start → Wider (widened f s) r → Wider s r
widened-Wider f (first, last) r h w = ground arith

fault_span-Wider :
    (t recovered : Time) (fs : List FaultWindow) (s : Time × Time)
    → HasStarts fs
    → Wider s (fault_span t recovered fs s)
unfolding fault_span
fault_span-Wider t recovered [] s h = (omega arith, inr (omega arith))
fault_span-Wider t recovered (f ∷ fs) s (h, hs) =
    if-cases (λ next. Wider s (fault_span t recovered fs next)) (stopped_since t recovered f)
      (widened f s) s
      (λ e. widened-Wider f s _ h (fault_span-Wider t recovered fs (widened f s) hs))
      (λ e. fault_span-Wider t recovered fs s hs)

abbrev Spans : Time × Time → FaultWindow → Type 0
Spans span f = (span.0 ≤ f.start) × (f.end ≤ span.1)

widened-Spans :
    (f : FaultWindow) (s r : Time × Time) → 0 < f.start → Wider (widened f s) r → Spans r f
widened-Spans f (first, last) r h w = ground arith

fault_span-Spans :
    (t recovered : Time) (fs : List FaultWindow) (s : Time × Time) {f : FaultWindow}
    → HasStarts fs
    → In f fs
    → stopped_since t recovered f ≡ true
    → Spans (fault_span t recovered fs s) f
unfolding fault_span
fault_span-Spans t recovered [] s h m e = elim m [ ]
fault_span-Spans t recovered (g ∷ fs) s {f} (h, hs) (here q) e =
    let stopped : stopped_since t recovered g ≡ true = ap (stopped_since t recovered) (sym q) ∙ e in
    subst (Spans (fault_span t recovered (g ∷ fs) s)) (sym q) (
      if-cases (λ next. Spans (fault_span t recovered fs next) g) (stopped_since t recovered g)
        (widened g s) s
        (λ k. widened-Spans g s _ h (fault_span-Wider t recovered fs (widened g s) hs))
        (λ k. absurd (ground arith)))
fault_span-Spans t recovered (g ∷ fs) s (h, hs) (there m) e =
    fault_span-Spans t recovered fs (if stopped_since t recovered g then widened g s else s) hs m e

-- As long after its end as it lasted since the last convergence, and timeouts.settle more: the sum
-- `end + (end - from) + settle`.
abbrev pub fair_time : Input → Time → FaultWindow → Time
fair_time inp recovered f = f.end + f.end + settle_timeout inp - later f.start recovered

fair-le :
    (inp : Input) (recovered : Time) (span : Time × Time) (f : FaultWindow)
    → 0 < f.end
    → Spans span f
    → fair_time inp recovered f ≤ owed_after inp span recovered
fair-le inp recovered (first, last) f h s = ground arith

exits_owed-le :
    (inp : Input) (t recovered : Time) (active : Bool) (exits : List Exit) (o : Time)
    → o ≤ exits_owed inp t recovered active exits o
unfolding exits_owed
exits_owed-le inp t recovered active [] o = omega arith
exits_owed-le inp t recovered active (e ∷ exits) o =
    let next =
      if counts_exit inp t recovered active e then later o (settled_by inp e.restart) else o in
    ground (arith, exits_owed-le inp t recovered active exits next)

stopped-ended :
    (t recovered : Time) (f : FaultWindow) → stopped_since t recovered f ≡ true → 0 < f.end
unfolding stopped_since
stopped-ended t recovered f e = ground arith

faults_owed-fair :
    (inp : Input) (t : Time) {f : FaultWindow}
    → HasStarts inp.faults
    → In f inp.faults
    → stopped_since t (last_converged inp t) f ≡ true
    → fair_time inp (last_converged inp t) f ≤ faults_owed inp t
unfolding faults_owed
faults_owed-fair inp t {f} h m e =
    fair-le inp (last_converged inp t) (fault_span t (last_converged inp t) inp.faults (0, 0)) f
      (stopped-ended t (last_converged inp t) f e)
      (fault_span-Spans t (last_converged inp t) inp.faults (0, 0) h m e)

-- A fault that stopped by `t`, after the target last converged, gives the target as long after its end
-- as it lasted since that convergence, and timeouts.settle more: until then the target is recovering.
pub recovering-fair :
    (inp : Input) (t : Time) {f : FaultWindow}
    → HasStarts inp.faults
    → In f inp.faults
    → stopped_since t (last_converged inp t) f ≡ true
    → (fair_time inp (last_converged inp t) f ≤ owed inp t)
      × ((recovering inp t ≡ true) ⊎ (fair_time inp (last_converged inp t) f ≤ t))
unfolding recovering owed
recovering-fair inp t {f} h m e =
    let fair = faults_owed-fair inp t h m e in
    let more =
      exits_owed-le inp t (last_converged inp t) (faulted inp t t) inp.exits (faults_owed inp t) in
    ground arith
