-- ===== src/Invariant/Convergence/Late.antt =====
-- What G4 reports of the anchors.
use botbox.Base.{
  ◌+◌, Bool, true, false, not, List, [], ◌∷◌, ◌++◌, map, ◌≡◌, refl, sym, ap, subst, ◌≤◌, ◌<◌, arith,
  if◌then◌else◌, any-none, filter_by, In-filter_by, is_some, In, here, there, ◌⊎◌, inl, inr,
  In-append_split, In-map, ◌||◌,
}
use botbox.Base.Sort.{In-of_sort_by}
use botbox.Clock.{Time, is_zero, before}
use botbox.Json.{Fields}
use botbox.Observe.{Version}
use botbox.Run.Sequence.{OpType, op_type_beq}
use botbox.Run.Settle.Readiness.{Evaluated, holds, not_bool, not_evaluated}
use botbox.Invariant.{Input, Op, FaultWindow, settle_timeout, gives_input, observed, faulted}
use botbox.Invariant.State.{state_at}
use botbox.Invariant.Attribution.{crs}
use botbox.Invariant.Window.{torn_down}
use botbox.Invariant.Recovery.{owed, next_converged, excused_exit}
use botbox.Invariant.Convergence.{
  Anchor, ready_by, op_anchor, fault_anchor, converge_anchors, respecified, passes_over, Outcome,
  judge_cr, judge_crs, late_from, late, add,
}

-- An anchor is where an op gave the target input, or a fault stopped.
abbrev pub IsAnchor : Input → Anchor → Type 0
IsAnchor inp a =
    ((o : Op) × In o inp.ops × (gives_input o ≡ true) × (a ≡ op_anchor inp o))
    ⊎ ((f : FaultWindow) × In f inp.faults × (is_zero f.end ≡ false) × (a ≡ fault_anchor inp f))

converge_anchors-IsAnchor :
    (inp : Input) (a : Anchor) → In a (converge_anchors inp) → IsAnchor inp a
unfolding converge_anchors
converge_anchors-IsAnchor inp a m =
    let of_ops = map (op_anchor inp) (filter_by gives_input inp.ops) in
    let of_faults = map (fault_anchor inp) (filter_by (λ f. not (is_zero f.end)) inp.faults) in
    elim (In-append_split of_ops of_faults
      (In-of_sort_by (λ a b. before a.at b.at) (of_ops ++ of_faults) m)) [
        | inl k ↦
            let (o, kept, e) = In-map (op_anchor inp) (filter_by gives_input inp.ops) k in
            let (at, h) = In-filter_by gives_input inp.ops kept in inl (o, at, h, e)
        | inr k ↦
            let (f, kept, e) =
              In-map (fault_anchor inp) (filter_by (λ f. not (is_zero f.end)) inp.faults) k in
            let (at, h) = In-filter_by (λ (f : FaultWindow). not (is_zero f.end)) inp.faults kept in
            inr (f, at, ground arith, e)
      ]

-- An op that hands the target's time to its own anchor.
abbrev pub respecifies : Op → Bool
respecifies o = gives_input o || op_type_beq o.type OpType.delete_fixture

ready_by-le :
    (inp : Input) (at : Time)
    → (at + settle_timeout inp ≤ ready_by inp at)
      × (next_converged inp at ≡ 0 → owed inp at ≤ ready_by inp at)
unfolding ready_by
ready_by-le inp at = (ground arith, λ h. ground arith)

module _ (predicate : Fields → Evaluated) where
  abbrev pub IsUnready : Version → Type 0
  IsUnready cr = (predicate cr.object ≡ not_evaluated) ⊎ (predicate cr.object ≡ holds false)

  -- A CR there at the deadline of an anchor and not under deletion, that was not ready, where nothing
  -- excuses the target.
  pub record IsLate (inp : Input) (a : Anchor) (cr : Version) : Type 0 where
    pub anchored : IsAnchor inp a
    pub in_time : a.at + settle_timeout inp ≤ a.deadline
    pub owed_first : next_converged inp a.at ≡ 0 → owed inp a.at ≤ a.deadline
    pub seen : observed inp a.deadline ≡ true
    pub faultless : faulted inp a.at a.deadline ≡ false
    pub not_down : excused_exit inp a.at a.deadline ≡ false
    pub not_torn_down : torn_down inp a.deadline ≡ false
    pub unchanged :
        (o : Op) → In o inp.ops → respecifies o ≡ true → a.at < o.time → a.deadline ≤ o.time
    pub there : In cr (crs (state_at inp a.deadline) inp.target.primary)
    pub standing : is_some cr.deletion_timestamp ≡ false
    pub unready : IsUnready cr

  judge_crs-IsUnready :
      (a : Anchor) (left : List Version) (rest : Outcome (Anchor × Version)) (b : Anchor)
      (cr : Version)
      → In (b, cr) (judge_crs predicate a left rest).found
      → In (b, cr) rest.found
        ⊎ ((b ≡ a) × In cr left × (is_some cr.deletion_timestamp ≡ false) × IsUnready cr)
  unfolding judge_crs
  judge_crs-IsUnready a [] rest b cr m = inl m
  judge_crs-IsUnready a (v ∷ left) rest b cr m =
      by (is_some v.deletion_timestamp) refl (predicate v.object) refl m
        (λ k. judge_crs-IsUnready a left rest b cr k)
    where
      Unready : List Version → Type 0
      Unready vs = (b ≡ a) × In cr vs × (is_some cr.deletion_timestamp ≡ false) × IsUnready cr

      others : Outcome (Anchor × Version)
      others = judge_crs predicate a left rest

      Later : Type 0
      Later = In (b, cr) others.found → In (b, cr) rest.found ⊎ Unready left

      later_on : In (b, cr) rest.found ⊎ Unready left → In (b, cr) rest.found ⊎ Unready (v ∷ left)
      later_on (inl k) = inl k
      later_on (inr (e, k, q, u)) = inr (e, there k, q, u)

      first :
          is_some v.deletion_timestamp ≡ false
          → IsUnready v
          → In (b, cr) (add (a, v) others).found
          → Later
          → In (b, cr) rest.found ⊎ Unready (v ∷ left)
      first p u (here e) ih =
          let same : cr ≡ v = ap (λ x. x.1) e in
          let of : b ≡ a = ap (λ x. x.0) e in
          inr (
            of,
            here same,
            subst (λ w. is_some w.deletion_timestamp ≡ false) (sym same) p,
            subst IsUnready (sym same) u,
          )
      first p u (there k) ih = later_on (ih k)

      by :
          (c : Bool)
          → is_some v.deletion_timestamp ≡ c
          → (e : Evaluated) → predicate v.object ≡ e
          → In (b, cr) (if c then others else judge_cr predicate a v e others).found
          → Later
          → In (b, cr) rest.found ⊎ Unready (v ∷ left)
      by true p e q k ih = later_on (ih k)
      by false p not_bool q k ih = elim k [ ]
      by false p not_evaluated q k ih = first p (inl q) k ih
      by false p (holds true) q k ih = later_on (ih k)
      by false p (holds false) q k ih = first p (inr q) k ih

  respecified-none :
      (inp : Input) (from to : Time) (o : Op)
      → respecified inp from to ≡ false
      → In o inp.ops
      → respecifies o ≡ true
      → from < o.time
      → to ≤ o.time
  unfolding respecified
  respecified-none inp from to o h m k l = let out = any-none _ h m in ground arith

  IsLate-crs :
      (inp : Input) (a : Anchor) (cr : Version)
      → IsAnchor inp a
      → passes_over inp a ≡ false
      → In cr (crs (state_at inp a.deadline) inp.target.primary)
      → is_some cr.deletion_timestamp ≡ false
      → IsUnready cr
      → IsLate inp a cr
  unfolding passes_over
  IsLate-crs inp a cr anchored h m standing unready =
      let (in_time, owed_first) = deadline_of anchored in
      let quiet : respecified inp a.at a.deadline ≡ false = ground arith in
      record {
        anchored = anchored;
        in_time = in_time;
        owed_first = owed_first;
        seen = ground arith;
        faultless = ground arith;
        not_down = ground arith;
        not_torn_down = ground arith;
        unchanged = λ o k. respecified-none inp a.at a.deadline o quiet k;
        there = m;
        standing = standing;
        unready = unready;
      }
    where
      InTime : Anchor → Type 0
      InTime x =
          (x.at + settle_timeout inp ≤ x.deadline)
          × (next_converged inp x.at ≡ 0 → owed inp x.at ≤ x.deadline)

      deadline_of : IsAnchor inp a → InTime a
      deadline_of (inl (o, k, g, e)) = subst InTime (sym e) (ready_by-le inp o.time)
      deadline_of (inr (f, k, g, e)) = subst InTime (sym e) (ready_by-le inp f.end)

  late_from-IsLate :
      (inp : Input) (anchors : List Anchor) (a : Anchor) (cr : Version)
      → ((b : Anchor) → In b anchors → IsAnchor inp b)
      → In (a, cr) (late_from predicate inp anchors).found
      → IsLate inp a cr
  unfolding late_from
  late_from-IsLate inp [] a cr all m = elim m [ ]
  late_from-IsLate inp (b ∷ anchors) a cr all m =
      by (passes_over inp b) refl m
        (λ k. late_from-IsLate inp anchors a cr (λ x j. all x (there j)) k)
    where
      rest : Outcome (Anchor × Version)
      rest = late_from predicate inp anchors

      here_crs : List Version
      here_crs = crs (state_at inp b.deadline) inp.target.primary

      by :
          (c : Bool)
          → passes_over inp b ≡ c
          → In (a, cr) (if c then rest else judge_crs predicate b here_crs rest).found
          → (In (a, cr) rest.found → IsLate inp a cr)
          → IsLate inp a cr
      by true p k ih = ih k
      by false p k ih = elim (judge_crs-IsUnready b here_crs rest a cr k) [
        | inl j ↦ ih j
        | inr (e, there_, standing, unready) ↦
            subst (λ x. IsLate inp x cr) (sym e)
              (IsLate-crs inp b cr (all b (here refl)) p there_ standing unready)
      ]

  pub found-IsLate :
      (inp : Input) (a : Anchor) (cr : Version)
      → In (a, cr) (late predicate inp).found
      → IsLate inp a cr
  unfolding late
  found-IsLate inp a cr m =
      late_from-IsLate inp (converge_anchors inp) a cr (converge_anchors-IsAnchor inp) m
