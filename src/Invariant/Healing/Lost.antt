-- ===== src/Invariant/Healing/Lost.antt =====
-- What G7 reports of the run.
use botbox.Base.{
  Bool, String, true, false, not, ◌&&◌, none, List, [], ◌∷◌, ◌==◌, ◌≡◌, ◌≤◌, ◌<◌, arith, any-none,
  filter_by, filter_by-In, In-filter_by, contains, is_some, In, Bool-cases, inl, inr, here, there,
  none-any, ◌∙◌, refl, ◌↔◌,
}
use botbox.Base.Keyed.{if_kept}
use botbox.Clock.{Time, before, after}
use botbox.Observe.{Key-eq, GroupVersionKind-eq}
use botbox.Invariant.{Input, Op, Checkpoint, Exit, zero_key, op_of, faulted, changes_run, versions}
use botbox.Invariant.State.{state_at}
use botbox.Invariant.State.Serves.{last_seen, version-state_at}
use botbox.Invariant.Attribution.{asked_for}
use botbox.Invariant.Deletion.Clean.{version_at}
use botbox.Invariant.Recovery.{last_converged, recreate_owed}
use botbox.Invariant.Restart.{changes_between, changed_between, first_of}
use botbox.Invariant.Healing.{
  or_zero_op, or_zero_version, still_starting, stopped, is_never_back, heal, self_healing,
}

module _ (group_of : String → String) where
  -- An object that an op deleted never came back, and nothing excuses the target.
  pub record IsLost (inp : Input) (c : Checkpoint) (o : Op) : Type 0 where
    pub took : (o.deleted == zero_key) ≡ false
    pub recreated : contains inp.target.not_recreated o.deleted.gvk ≡ false
    pub gone : if_kept (λ v. not v.deleted) (last_seen o.deleted c.time (versions inp) none) ≡ none
    pub asked :
        asked_for group_of inp
          (or_zero_version (version_at inp o.deleted o.time))
          (state_at inp c.time)
        ≡ true
    pub settled :
        (p : Op)
        → In p inp.ops
        → changes_run p ≡ true
        → last_converged inp o.time ≤ p.time
        → o.time ≤ p.time
    pub faultless : faulted inp o.time c.time ≡ false
    pub recovered : recreate_owed inp o.time ≤ c.time
    pub running : still_starting inp o ≡ false
    pub up : (e : Exit) → In e inp.exits → e.at ≤ c.time → e.restart < o.time

  changed_between-none :
      (inp : Input) (from to : Time) (p : Op)
      → is_some (changed_between inp from to) ≡ false
      → In p inp.ops
      → changes_run p ≡ true
      → from ≤ p.time
      → to ≤ p.time
  unfolding changed_between changes_between
  changed_between-none inp from to p h m k l = elim (Bool-cases (before p.time to)) [
    | inr e ↦ ground arith
    | inl e ↦
        let kept =
          filter_by-In (λ (o : Op). changes_run o && (not (before o.time from) && before o.time to))
            m (ground arith) in
        absurd (
          none_in
            (filter_by (λ (o : Op). changes_run o && (not (before o.time from) && before o.time to))
              inp.ops)
            h kept)
  ]
    where
      none_in : (ops : List Op) → is_some (first_of ops) ≡ false → In p ops → ⊥
      none_in [] q n = elim n [ ]
      none_in (o ∷ ops) q n = absurd (ground arith)

  stopped-none :
      (inp : Input) (from to : Time) (e : Exit)
      → stopped inp from to ≡ false
      → In e inp.exits
      → e.at ≤ to
      → e.restart < from
  unfolding stopped
  stopped-none inp from to e h m k =
      let out = any-none (λ (x : Exit). not (after x.at to) && not (before x.restart from)) h m in
      ground arith

  heal-IsLost :
      (inp : Input) (c : Checkpoint)
      → is_never_back (heal group_of inp c) ≡ true
      → IsLost inp c (or_zero_op (op_of inp c.op))
  unfolding heal
  heal-IsLost inp c h =
      let o = or_zero_op (op_of inp c.op) in
      let served = version-state_at inp o.deleted c.time in
      let settled : is_some (changed_between inp (last_converged inp o.time) o.time) ≡ false =
        ground arith in
      let up : stopped inp o.time c.time ≡ false = ground arith in
      record {
        took = ground arith;
        recreated = ground arith;
        gone = ground arith;
        asked = ground arith;
        settled = λ p m. changed_between-none inp (last_converged inp o.time) o.time p settled m;
        faultless = ground arith;
        recovered = ground arith;
        running = ground arith;
        up = λ e m. stopped-none inp o.time c.time e up m;
      }

  none-changed_between :
      (inp : Input) (from to : Time)
      → ((p : Op) → In p inp.ops → changes_run p ≡ true → from ≤ p.time → to ≤ p.time)
      → is_some (changed_between inp from to) ≡ false
  unfolding changed_between changes_between
  none-changed_between inp from to h = by inp.ops h
    where
      by :
          (ops : List Op)
          → ((p : Op) → In p ops → changes_run p ≡ true → from ≤ p.time → to ≤ p.time)
          → is_some (
              first_of (
                filter_by
                  (λ o. changes_run o && (not (before o.time from) && before o.time to))
                  ops))
            ≡ false
      by [] k = refl
      by (o ∷ ops) k =
          let first = k o (here refl) in let rest = by ops (λ p m. k p (there m)) in ground arith

  none-stopped :
      (inp : Input) (from to : Time)
      → ((e : Exit) → In e inp.exits → e.at ≤ to → e.restart < from)
      → stopped inp from to ≡ false
  unfolding stopped
  none-stopped inp from to h =
      none-any inp.exits (λ e. not (after e.at to) && not (before e.restart from))
        (λ e m. let k = h e m in ground arith)

  IsLost-heal :
      (inp : Input) (c : Checkpoint)
      → IsLost inp c (or_zero_op (op_of inp c.op))
      → is_never_back (heal group_of inp c) ≡ true
  unfolding heal
  IsLost-heal inp c lost =
      let o = or_zero_op (op_of inp c.op) in
      let served = version-state_at inp o.deleted c.time ∙ lost.gone in
      let settled = none-changed_between inp (last_converged inp o.time) o.time lost.settled in
      let up = none-stopped inp o.time c.time lost.up in
      let recovered : before c.time (recreate_owed inp o.time) ≡ false = ground arith in
      ground arith

  -- G7 reports exactly the checkpoints that ended the wait after an op that deleted an object of a kind to
  -- be recreated, where the last version recorded of it by then is of its deletion, or there is none, and a
  -- CR asks for it, and nothing excuses that: no op changed the run between the convergence before the op
  -- and the op, no fault was active between the op and the checkpoint, which is no earlier than
  -- RecreateOwed says, the target was back before the op, and each exit by the checkpoint had restarted
  -- before the op.
  pub self_healing-IsLost :
      (inp : Input) (c : Checkpoint)
      → In c (self_healing group_of inp)
        ↔ (In c inp.checkpoints × IsLost inp c (or_zero_op (op_of inp c.op)))
  unfolding self_healing
  self_healing-IsLost inp c =
      let lost : Checkpoint → Bool = λ c'. is_never_back (heal group_of inp c') in
      (
        (λ m. let (at, h) = In-filter_by lost inp.checkpoints m in (at, heal-IsLost inp c h)),
        (λ k. filter_by-In lost k.0 (IsLost-heal inp c k.1)),
      )
