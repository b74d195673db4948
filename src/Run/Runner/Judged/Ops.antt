-- ===== src/Run/Runner/Judged/Ops.antt =====
-- Which ops a run has applied when it ends, and where its violation was found.
use botbox.Base.{
  ℕ, zero, suc, String, Bool, true, false, Option, none, some, List, [], ◌∷◌, ◌++◌, ◌≡◌, ◌≢◌, ◌||◌,
  refl, sym, ap, subst, ◌∙◌, map, append-nil, append_assoc, ◌⊎◌, inl, inr, arith, set, update,
  length, length-map, map-append_one, take, get_last?, is_some,
}
use botbox.Base.Action.{Result, ok, err, continue, ◌>>=◌, ◌>>◌, pure, reword}
use botbox.Base.Action.Keeps.{
  Keeps, Leads, Leads-bind, Leads-Keeps, Leads-when, Ends, Keeps-bind, Keeps-if, Keeps-pure,
  Keeps-attempt_get,
}
use botbox.Invariant
use botbox.Run.Sequence.{Op}
use botbox.Run.Runner.{
  Wait, AppliedOp, Checkpoint, Violation, RunTarget, Runner, Harness, Libraries, RunError, refused,
  stayed, State, Method, runner_of, change, on_timeline,
}
use botbox.Run.Runner.Waits.{judge, settle_op, settle_last, checkpoint_of}
use botbox.Invariant.Deletion.{excused}
use botbox.Run.Runner.Ops.Fixtures.{Restored}
use botbox.Run.Runner.Apply.{
  excused_or_stayed, judge_stayed, apply_restored, finish, act, apply_op, wrapped, or_ended,
  apply_ops,
}
use botbox.Run.Runner.Core.{
  Core, core_of, Has, Spares, Any, spares_rules, Spares-look, Spares-change, Spares-runner_of,
  is_unexcused-Spares, floor_after-Spares, wait-Spares, as_of-Spares, expire_faults-Spares,
  await_restart-Spares,
}
use botbox.Run.Runner.Core.Ops.{apply_as-Spares, restore_fixtures-Spares}
use botbox.Run.Runner.Judged.{Judged, Spares-Judged, Has-Judged, Leads-Spares, checkpoint-Judged}

abbrev with_ops : Core → List Op → Core
with_ops c ops = record c { ops = ops }

map-update_op :
    (w : Wait) (ops : List AppliedOp) (i : ℕ)
    → map (λ a. a.op) (update ops i (λ a. record a { settled = some w })) ≡ map (λ a. a.op) ops
map-update_op w [] i = refl
map-update_op w (a ∷ ops) zero = refl
map-update_op w (a ∷ ops) (suc i) = ap (λ l. a.op ∷ l) (map-update_op w ops i)

settle_last-core :
    (w : Wait) (r : Runner)
    → core_of (on_timeline (λ l. record l { ops = settle_last w l.ops }) r) ≡ core_of r
settle_last-core w r = ap (with_ops (core_of r)) (map-update_op w r.timeline.ops _)

map-set_op :
    (d : AppliedOp) (ops : List AppliedOp) (i : ℕ)
    → map (λ a. a.op) (set ops i d) ≡ set (map (λ a. a.op) ops) i d.op
map-set_op d [] i = refl
map-set_op d (a ∷ ops) zero = refl
map-set_op d (a ∷ ops) (suc i) = ap (λ l. a.op ∷ l) (map-set_op d ops i)

set-last {ℓ} : {A : Type ℓ} (xs : List A) (x : A) → set (xs ++ x ∷ []) (length xs) x ≡ xs ++ x ∷ []
set-last [] x = refl
set-last (y ∷ xs) x = ap (λ l. y ∷ l) (set-last xs x)

Ends-also :
    {S E A : Type 0} (R R' : S → Type 0) (r : Result E A) (s : S)
    → Ends R R r s
    → Ends R (λ s. R' s ⊎ R s) r s
Ends-also R R' (ok a) s h = h
Ends-also R R' (err e) s h = inr h

ended :
    (v : Option Violation) (stopped : Bool)
    → is_some v || stopped ≡ true
    → v ≡ none
    → stopped ≡ false
    → ⊥
ended none stopped e v w = ground arith
ended (some x) stopped e v w = ground arith

pub unviolated : (v : Option Violation) (stopped : Bool) → is_some v || stopped ≡ false → v ≡ none
unviolated none stopped e = refl
unviolated (some x) stopped e = absurd (ground arith)

module _ (lib : Libraries) (H : Harness) (t : RunTarget) (limit : ℕ) where
  open H use {Error}

  pub judge-Judged :
      (c : Core) (k : Checkpoint) (excuse : Invariant.Input → Invariant.Checkpoint → Bool)
      → c.violation ≡ none
      → Leads (Has c) (Judged H t c.ops) (Judged H t c.ops) (judge H t limit k excuse)
  unfolding judge
  judge-Judged c k excuse clear =
      Leads-bind (Has c) _ _
        (Leads-Spares H t c clear
          (Keeps-if k.converged _ _ (λ e. Keeps-pure _) (λ e. is_unexcused-Spares H t k excuse)))
        (λ expired. checkpoint-Judged H t limit c k expired clear)

  settle_op-Judged :
      (c : Core) (op : Op)
      → c.violation ≡ none
      → Leads (Has c) (Judged H t c.ops) (Judged H t c.ops) (settle_op H t limit op)
  unfolding settle_op
  settle_op-Judged c op clear =
      Leads-bind (Has c) _ _ (Leads-Spares H t c clear Spares-runner_of) (λ r.
        Leads-bind (Has c) _ _
          (Leads-Spares H t c clear (floor_after-Spares H t (get_last? r.timeline.ops)))
          (λ floor. Leads-bind (Has c) _ _ (Leads-Spares H t c clear (wait-Spares H t floor)) (λ w.
            Leads-bind (Has c) _ _ (Leads-Spares H t c clear (Spares-change _ (settle_last-core w)))
              (λ _. judge-Judged c (checkpoint_of w op.index) excused clear))))

  excused_or_stayed-Spares :
      {c : Core} (op : Op) (cr : String) (w : Wait) (excused : Bool)
      → Spares c (excused_or_stayed lib H t limit op cr w excused)
  excused_or_stayed-Spares op cr w true = search spares_rules depth 8
  excused_or_stayed-Spares op cr w false = search spares_rules depth 8

  judge_stayed-Judged :
      (c : Core) (op : Op) (cr : String) (w : Wait)
      → c.violation ≡ none
      → Leads (Has c) (Judged H t c.ops) (Judged H t c.ops) (judge_stayed lib H t limit op cr w)
  unfolding judge_stayed
  judge_stayed-Judged c op cr w clear =
      Leads-bind (Judged H t c.ops) _ _ (judge-Judged c _ _ clear) (λ _.
        Leads-Keeps _
          (Spares-Judged H t c.ops _ (λ c. Keeps-bind _ _ Spares-runner_of (λ r.
            Keeps-if (is_some r.violation) _ _ (λ e. Keeps-pure _)
              (λ e.
                Keeps-bind _ _ (as_of-Spares H t _) (λ inp. excused_or_stayed-Spares op cr w _)))))
          (λ s h. h) (λ s h. h))

  finish-Judged :
      (c : Core) (outcome : Result (RunError Error) String) (op : Op)
      → c.violation ≡ none
      → Leads (Has c) (Judged H t c.ops) (Judged H t c.ops) (finish lib H t limit outcome op)
  finish-Judged c (ok name) op clear =
      Leads-when _ _ (settle_op-Judged c op clear) (Has-Judged H t c clear)
  finish-Judged c (err (stayed cr w)) op clear = judge_stayed-Judged c op cr w clear
  finish-Judged c (err e) op clear =
      let gone = Has-Judged H t c clear in
      Leads-Keeps {Q = Any} (finish lib H t limit (err e) op) (search spares_rules) gone gone

  apply_restored-Spares :
      {c : Core} (r : Restored lib H t) (op : Op) (cr : String)
      → Spares c (apply_restored lib H t limit r op cr)
  apply_restored-Spares (restored, ok a) op cr =
      Keeps-attempt_get _ (apply_as-Spares lib H t limit op.type op cr)
  apply_restored-Spares (restored, err e) op cr = Keeps-pure _

  -- The op's entry, written over at its place.
  set-Has :
      (c : Core) (os : List Op) (d : AppliedOp) (landed : ℕ)
      → c.ops ≡ os ++ d.op ∷ []
      → landed ≡ length os
      → Keeps
          (Has c)
          (Any {E = Error})
          (change (on_timeline (λ l. record l { ops = set l.ops landed d })))
  unfolding change
  set-Has c os d landed e n = record {
    at = λ s h. (
      tt,
      ap (with_ops (core_of s.runner)) (
            map-set_op d s.runner.timeline.ops landed
            ∙ ap (λ k. set k landed d.op) (ap (λ k. k.ops) h ∙ e)
            ∙ ap (λ i. set (os ++ d.op ∷ []) i d.op) n
            ∙ set-last os d.op
            ∙ sym e
            ∙ sym (ap (λ k. k.ops) h))
          ∙ h,
    );
  }

  act-Judged :
      (c : Core) (os : List Op) (op : Op) (applied : AppliedOp) (landed : ℕ)
      → c.violation ≡ none
      → c.ops ≡ os ++ applied.op ∷ []
      → landed ≡ length os
      → Leads (Has c) (Judged H t c.ops) (Judged H t c.ops) (act lib H t limit op applied landed)
  unfolding act
  act-Judged c os op applied landed clear e n =
      Leads-bind (Has c) _ _ (Leads-Spares H t c clear (restore_fixtures-Spares lib H t op.index))
        (λ restored.
          Leads-bind (Has c) _ _
            (Leads-Spares H t c clear (apply_restored-Spares restored op applied.cr))
            (λ outcome.
              Leads-bind (Has c) _ _ (Leads-Spares H t c clear (set-Has c os _ landed e n))
                (λ _. finish-Judged c outcome op clear)))

  -- The op lands on the timeline, and is acted on.
  land-Judged :
      (c : Core) (op : Op) (applied : AppliedOp)
      → c.violation ≡ none
      → applied.op ≡ op
      → Leads
          (Has c)
          (Judged H t (c.ops ++ op ∷ []))
          (λ s. Judged H t c.ops s ⊎ Judged H t (c.ops ++ op ∷ []) s)
          (runner_of >>= λ r.
            change (on_timeline (λ l. record l { ops = l.ops ++ applied ∷ [] }))
            >> act lib H t limit op applied (length r.timeline.ops))
  unfolding ◌>>=◌ runner_of change
  land-Judged c op applied clear same = record {
    at = λ s h.
        let landed = length s.runner.timeline.ops in
        let c' = with_ops c (c.ops ++ op ∷ []) in
        let n : landed ≡ length c.ops =
          sym (length-map (λ a. a.op) s.runner.timeline.ops) ∙ ap (λ k. length k.ops) h in
        Ends-also (Judged H t (c.ops ++ op ∷ [])) (Judged H t c.ops) _ _ (
          (act-Judged c' c.ops op applied landed clear (ap (λ o. c.ops ++ o ∷ []) (sym same)) n).at
            _
            (ap (with_ops (core_of s.runner)) (
                map-append_one (λ a. a.op) s.runner.timeline.ops applied
                ∙ ap (λ o. map (λ a. a.op) s.runner.timeline.ops ++ o ∷ []) same)
              ∙ ap (λ k. with_ops k (k.ops ++ op ∷ [])) h));
  }

  apply_op-Judged :
      (c : Core) (op : Op)
      → c.violation ≡ none
      → Leads
          (Has c)
          (Judged H t (c.ops ++ op ∷ []))
          (λ s. Judged H t c.ops s ⊎ Judged H t (c.ops ++ op ∷ []) s)
          (apply_op lib H t limit op)
  unfolding apply_op
  apply_op-Judged c op clear =
      let before = λ (A : Type 0) (m : Method Error A) (h : Spares c m).
        Leads-Keeps {R' = λ s. Judged H t c.ops s ⊎ Judged H t (c.ops ++ op ∷ []) s} m h (λ s p. p)
          (λ s p. inl (Has-Judged H t c clear s p)) in
      Leads-bind (Has c) _ _ (before _ _ (expire_faults-Spares H t op.index)) (λ _.
        Leads-bind (Has c) _ _ (before _ _ (await_restart-Spares H t)) (λ _.
          Leads-bind (Has c) _ _ (before _ _ (Spares-look _)) (λ running.
            Leads-bind (Has c) _ _ (before _ _ (search spares_rules)) (λ _.
              Leads-bind (Has c) _ _ (before _ _ (Spares-look _))
                (λ at. land-Judged c op _ clear refl)))))

  -- What a run of these ops comes to, after those of `os`: the first n of them were applied, and all where
  -- it returned with no violation and no op stopped it.
  abbrev pub Ran : List Op → List Op → Result (RunError Error) (Unit {0}) → State → Type 0
  Ran os ops r s =
      (n : ℕ) × Judged H t (os ++ take n ops) s
      × (r ≡ ok tt → s.runner.violation ≡ none → s.runner.stopped ≡ false → take n ops ≡ ops)

  -- The rest of the sequence, after an op.
  continue-Ran :
      (os : List Op) (op : Op) (ops : List Op) (r : Result (RunError Error) (Unit {0})) (s : State)
      → Ends (Judged H t (os ++ op ∷ [])) (λ s. Judged H t os s ⊎ Judged H t (os ++ op ∷ []) s) r s
      → ((s : State)
          → Judged H t (os ++ op ∷ []) s
          → Ran
              (os ++ op ∷ [])
              ops
              (apply_ops lib H t limit ops s).0
              (apply_ops lib H t limit ops s).1)
      → Ran os
          (op ∷ ops)
          (continue (wrapped lib H t limit op r) (λ _. apply_ops lib H t limit ops) s).0
          (continue (wrapped lib H t limit op r) (λ _. apply_ops lib H t limit ops) s).1
  continue-Ran os op ops (ok a) s h rest =
      let (n, judged, done) = rest s h in
      (
        suc n,
        subst (λ l. Judged H t l (apply_ops lib H t limit ops s).1)
            (append_assoc os (op ∷ []) (take n ops)) judged,
        (λ r v w. ap (λ l. op ∷ l) (done r v w)),
      )
  continue-Ran os op ops (err e) s h rest = failing (wrapped lib H t limit op (err e)) (is_err e) h
    where
      is_err : (e : RunError Error) → wrapped lib H t limit op (err e) ≢ ok tt
      is_err (refused o x) = λ w. cc
      is_err _ = λ w. cc

      failing :
          (r : Result (RunError Error) (Unit {0}))
          → r ≢ ok tt
          → Judged H t os s ⊎ Judged H t (os ++ op ∷ []) s
          → Ran os
              (op ∷ ops)
              (continue r (λ _. apply_ops lib H t limit ops) s).0
              (continue r (λ _. apply_ops lib H t limit ops) s).1
      failing (ok a) wrong h = absurd (wrong refl)
      failing (err x) wrong (inl j) =
          (0, subst (λ l. Judged H t l s) (sym (append-nil os)) j, (λ r. absurd (wrong r)))
      failing (err x) wrong (inr j) = (1, j, (λ r. absurd (wrong r)))

  -- From a run that was judged so far, the ops are applied in the order of the sequence, from its first:
  -- some number of them, and all where the run returns with no violation and no op stopped it. A violation
  -- was found with the checkpoints that the run has.
  pub apply_ops-Ran :
      (ops os : List Op) (s : State)
      → Judged H t os s
      → Ran os ops (apply_ops lib H t limit ops s).0 (apply_ops lib H t limit ops s).1
  unfolding apply_ops pure ◌>>=◌ runner_of reword
  apply_ops-Ran [] os s j =
      (0, subst (λ l. Judged H t l s) (sym (append-nil os)) j, (λ r v w. refl))
  apply_ops-Ran (op ∷ ops) os s j =
      by (is_some s.runner.violation || s.runner.stopped) refl
        (λ s' j'. apply_ops-Ran ops (os ++ op ∷ []) s' j')
    where
      by :
          (b : Bool)
          → is_some s.runner.violation || s.runner.stopped ≡ b
          → ((s' : State)
              → Judged H t (os ++ op ∷ []) s'
              → Ran
                  (os ++ op ∷ [])
                  ops
                  (apply_ops lib H t limit ops s').0
                  (apply_ops lib H t limit ops s').1)
          → Ran os
              (op ∷ ops)
              (or_ended lib H t limit b op (apply_ops lib H t limit ops) s).0
              (or_ended lib H t limit b op (apply_ops lib H t limit ops) s).1
      by true e rest = (
        0,
        subst (λ l. Judged H t l s) (sym (append-nil os)) j,
        (λ r v w. absurd (ended s.runner.violation s.runner.stopped e v w)),
      )
      by false e rest =
          let clear = unviolated s.runner.violation s.runner.stopped e in
          continue-Ran os op ops (apply_op lib H t limit op s).0 (apply_op lib H t limit op s).1
            (subst
              (λ l.
                Ends (Judged H t (l ++ op ∷ [])) (λ s. Judged H t l s ⊎ Judged H t (l ++ op ∷ []) s)
                  (apply_op lib H t limit op s).0 (apply_op lib H t limit op s).1)
              j.0 ((apply_op-Judged (core_of s.runner) op clear).at s refl))
            rest
