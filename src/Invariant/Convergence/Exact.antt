-- ===== src/Invariant/Convergence/Exact.antt =====
-- What G4 finds late, of all that is.
use botbox.Base.{
  Bool, true, false, not, List, [], ◌∷◌, map, ◌≡◌, refl, ◌≤◌, ◌<◌, sym, ap, subst, ◌∙◌, ◌↔◌, inl,
  inr, arith, if◌then◌else◌, none-any, filter_by, filter_by-In, is_some, In, here, there,
  In-append_old, In-append_right, In-map_of,
}
use botbox.Base.Sort.{In-sort_by}
use botbox.Clock.{Time, is_zero, before}
use botbox.Json.{Fields}
use botbox.Observe.{Version}
use botbox.Run.Settle.Readiness.{Evaluated, holds, not_bool, not_evaluated}
use botbox.Invariant.{Input, Op, FaultWindow, gives_input}
use botbox.Invariant.State.{state_at}
use botbox.Invariant.Attribution.{crs}
use botbox.Invariant.Convergence.{
  Anchor, op_anchor, fault_anchor, converge_anchors, respecified, passes_over, Outcome, judge_cr,
  judge_crs, late_from, late,
}
use botbox.Invariant.Convergence.Late.{IsAnchor, respecifies, IsUnready, IsLate, found-IsLate}

IsAnchor-converge_anchors :
    (inp : Input) (a : Anchor) → IsAnchor inp a → In a (converge_anchors inp)
unfolding converge_anchors
IsAnchor-converge_anchors inp a (inl (o, m, g, e)) =
    In-sort_by (λ a b. before a.at b.at)
      (In-append_old (map (fault_anchor inp) (filter_by (λ f. not (is_zero f.end)) inp.faults))
        (In-map_of (op_anchor inp) (filter_by-In gives_input m g) e))
IsAnchor-converge_anchors inp a (inr (f, m, g, e)) =
    In-sort_by (λ a b. before a.at b.at)
      (In-append_right (map (op_anchor inp) (filter_by gives_input inp.ops)) (
        In-map_of (fault_anchor inp)
          (filter_by-In (λ (f : FaultWindow). not (is_zero f.end)) m (ground arith)) e))

none-respecified :
    (inp : Input) (from to : Time)
    → ((o : Op) → In o inp.ops → respecifies o ≡ true → from < o.time → to ≤ o.time)
    → respecified inp from to ≡ false
unfolding respecified
none-respecified inp from to h = none-any inp.ops _ (λ o m. let k = h o m in ground arith)

module _ (predicate : Fields → Evaluated) where
  IsLate-passes_over :
      (inp : Input) (a : Anchor) (cr : Version)
      → IsLate predicate inp a cr
      → passes_over inp a ≡ false
  unfolding passes_over
  IsLate-passes_over inp a cr l =
      let seen = l.seen in
      let faultless = l.faultless in
      let up = l.not_down in
      let not_torn_down = l.not_torn_down in
      let unchanged = none-respecified inp a.at a.deadline l.unchanged in ground arith

  -- A round that did not fail handed on what the loop after it finds.
  round-keeps :
      (a : Anchor) (v : Version) (others : Outcome (Anchor × Version)) {x : Anchor × Version}
      (c : Bool) (e : Evaluated)
      → (if c then others else judge_cr predicate a v e others).failed ≡ false
      → (others.failed ≡ false)
        × (In x others.found → In x (if c then others else judge_cr predicate a v e others).found)
  round-keeps a v others true e h = (h, λ m. m)
  round-keeps a v others false not_bool h = absurd (ground arith)
  round-keeps a v others false not_evaluated h = (h, λ m. there m)
  round-keeps a v others false (holds true) h = (h, λ m. m)
  round-keeps a v others false (holds false) h = (h, λ m. there m)

  judge_crs-keeps :
      (a : Anchor) (left : List Version) (rest : Outcome (Anchor × Version)) {x : Anchor × Version}
      → (judge_crs predicate a left rest).failed ≡ false
      → (rest.failed ≡ false) × (In x rest.found → In x (judge_crs predicate a left rest).found)
  unfolding judge_crs
  judge_crs-keeps a [] rest h = (h, λ m. m)
  judge_crs-keeps a (v ∷ left) rest h =
      let (ok, on) =
        round-keeps a v (judge_crs predicate a left rest) (is_some v.deletion_timestamp)
          (predicate v.object) h in
      let (ok', on') = judge_crs-keeps a left rest ok in (ok', λ m. on (on' m))

  IsUnready-round :
      (a : Anchor) (v : Version) (others : Outcome (Anchor × Version))
      → is_some v.deletion_timestamp ≡ false
      → IsUnready predicate v
      → In
          (a, v)
          (if is_some v.deletion_timestamp
            then others
            else judge_cr predicate a v (predicate v.object) others).found
  IsUnready-round a v others s (inl u) = rw (s, u) (here refl)
  IsUnready-round a v others s (inr u) = rw (s, u) (here refl)

  IsUnready-judge_crs :
      (a : Anchor) (left : List Version) (rest : Outcome (Anchor × Version)) (cr : Version)
      → (judge_crs predicate a left rest).failed ≡ false
      → In cr left
      → is_some cr.deletion_timestamp ≡ false
      → IsUnready predicate cr
      → In (a, cr) (judge_crs predicate a left rest).found
  unfolding judge_crs
  IsUnready-judge_crs a [] rest cr h m s u = elim m [ ]
  IsUnready-judge_crs a (v ∷ left) rest cr h (here q) s u =
      subst (λ w. In (a, w) (judge_crs predicate a (v ∷ left) rest).found) (sym q)
        (IsUnready-round a v (judge_crs predicate a left rest)
          (subst (λ w. is_some w.deletion_timestamp ≡ false) q s) (subst (IsUnready predicate) q u))
  IsUnready-judge_crs a (v ∷ left) rest cr h (there m) s u =
      let (ok, on) =
        round-keeps a v (judge_crs predicate a left rest) (is_some v.deletion_timestamp)
          (predicate v.object) h in
      on (IsUnready-judge_crs a left rest cr ok m s u)

  IsLate-late_from :
      (inp : Input) (anchors : List Anchor) (a : Anchor) (cr : Version)
      → (late_from predicate inp anchors).failed ≡ false
      → In a anchors
      → IsLate predicate inp a cr
      → In (a, cr) (late_from predicate inp anchors).found
  unfolding late_from
  IsLate-late_from inp [] a cr h m l = elim m [ ]
  IsLate-late_from inp (b ∷ anchors) a cr h m l =
      by (passes_over inp b) refl h m (λ ok k. IsLate-late_from inp anchors a cr ok k l)
    where
      rest : Outcome (Anchor × Version)
      rest = late_from predicate inp anchors

      here_crs : List Version
      here_crs = crs (state_at inp b.deadline) inp.target.primary

      Found : Bool → Type 0
      Found c = In (a, cr) (if c then rest else judge_crs predicate b here_crs rest).found

      by :
          (c : Bool)
          → passes_over inp b ≡ c
          → (if c then rest else judge_crs predicate b here_crs rest).failed ≡ false
          → In a (b ∷ anchors)
          → (rest.failed ≡ false → In a anchors → In (a, cr) rest.found)
          → Found c
      by true p ok (here q) ih =
          let judged = IsLate-passes_over inp a cr l in
          let over = ap (passes_over inp) q ∙ p in absurd (ground arith)
      by true p ok (there k) ih = ih ok k
      by false p ok (here q) ih =
          subst (λ x. In (x, cr) (judge_crs predicate b here_crs rest).found) (sym q)
            (IsUnready-judge_crs b here_crs rest cr ok
              (subst (λ x. In cr (crs (state_at inp x.deadline) inp.target.primary)) q l.there)
              l.standing l.unready)
      by false p ok (there k) ih =
          let (fine, on) = judge_crs-keeps b here_crs rest ok in on (ih fine k)

  -- Where no predicate gave anything but a Bool, G4 finds late exactly the CRs that were there, not under
  -- deletion and not ready, by the target's predicate, at a deadline that the run observed, before the
  -- teardown: timeouts.settle or more after an op gave the target input or a fault stopped, and no earlier
  -- than Owed says where no settle wait converged since; where no fault was active and no exit excused in
  -- that time, and no later op gave input or deleted a fixture before the deadline.
  pub late-IsLate :
      (inp : Input) (a : Anchor) (cr : Version)
      → (late predicate inp).failed ≡ false
      → In (a, cr) (late predicate inp).found ↔ IsLate predicate inp a cr
  unfolding late
  late-IsLate inp a cr h = (
    found-IsLate predicate inp a cr,
    (λ l.
        IsLate-late_from inp (converge_anchors inp) a cr h
          (IsAnchor-converge_anchors inp a l.anchored) l),
  )
