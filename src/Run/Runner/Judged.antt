-- ===== src/Run/Runner/Judged.antt =====
-- Where a run's violation was found.
pub mod Ops
pub mod Down
use botbox.Base.{
  ℕ, zero, suc, String, Bool, true, false, Option, none, some, List, [], ◌∷◌, ◌++◌, ◌≡◌, refl, sym,
  ap, subst, ◌∙◌, map, ◌⊎◌, inl, inr, arith,
}
use botbox.Base.Action.{Action, Result, ok, err, continue, ◌>>=◌, ◌>>◌, when, pure, raise}
use botbox.Base.Action.Keeps.{
  Keeps, OnError, Leads, Leads-bind, Leads-Keeps, Keeps-bind, Keeps-when, Keeps-then,
}
use botbox.Run.Sequence.{Op}
use botbox.Run.Runner.{
  Checkpoint, Violation, Findings, RunTarget, Input, Runner, World, Harness, RunError, harness,
  State, Method, look, looked, lifted, call, lift, runner_of, change, on_timeline,
}
use botbox.Run.Runner.Waits.{
  read_exits, violate, violate_first, input, noted, run_check, or_first, judge_expired, run_checks,
  checkpoint,
}
use botbox.Run.Runner.Core.{
  Core, core_of, Has, Spares, Any, read_exits-Spares, Spares-look, spares_rules,
}

module _ (H : Harness) (t : RunTarget) where
  open H use {Error}

  -- A check of the run, with these checkpoints, found it: ExpiredWait, or Check before all else.
  abbrev pub WasFound : List Checkpoint → Option Violation → Type 0
  WasFound cs none = Unit
  WasFound cs (some v) =
      (inp : Input) × (inp.timeline.checkpoints ≡ cs)
      × (((c : Checkpoint) × (H.expired_wait inp c ≡ ok v))
          ⊎ ((found : Findings) × (rest : List Violation) × (H.check inp ≡ ok found)
              × (found.violations ≡ v ∷ rest)))

  -- These ops were applied, and the violation, if there is one, was found with the run's checkpoints.
  abbrev pub IsJudged : List Op → Core → Type 0
  IsJudged os c = (c.ops ≡ os) × WasFound c.checkpoints c.violation

  abbrev pub Judged : List Op → State → Type 0
  Judged os s = IsJudged os (core_of s.runner)

  -- A method that spares every core keeps what is said of the core.
  pub Spares-Judged :
      {A : Type 0} (os : List Op) (m : Method Error A)
      → ((c : Core) → Spares c m)
      → Keeps (Judged os) Any m
  Spares-Judged os m h = record {
    at = λ s j. let (q, e) = (h (core_of s.runner)).at s refl in (q, subst (IsJudged os) (sym e) j);
  }

  violate-IsJudged :
      (os : List Op) (v : Violation) (r : Runner)
      → WasFound r.timeline.checkpoints (some v)
      → IsJudged os (core_of r)
      → IsJudged os (core_of (violate v r))
  unfolding violate
  violate-IsJudged os v r found (ops, was) = by r.violation
    where
      by : (o : Option Violation) → IsJudged os (core_of (or_first o v r))
      by none = (ops, found)
      by (some w) = (ops, was)

  judge_expired-Judged :
      (os : List Op) (k : Checkpoint) → Keeps (Judged os) Any (judge_expired H t k)
  unfolding judge_expired input ◌>>=◌ look runner_of pure lift change
  judge_expired-Judged os k = record { at = λ s j. by s j _ (H.expired_wait (read s) k) refl }
    where
      read : State → Input
      read s = record {
        requests = H.requests s.world;
        objects = H.objects (looked ∷ s.world);
        timeline = s.runner.timeline;
      }

      by :
          (s : State)
          → Judged os s
          → (w : World) (r : Result Error Violation) → H.expired_wait (read s) k ≡ r
          → OnError
              (Any {E = Error})
              (continue
                (lifted r)
                (λ v. change (violate v))
                (record { runner = s.runner; world = w })).0
            × Judged os
                (continue
                  (lifted r)
                  (λ v. change (violate v))
                  (record { runner = s.runner; world = w })).1
      by s j w (ok v) e = (tt, violate-IsJudged os v s.runner (read s, refl, inl (k, e)) j)
      by s j w (err x) e = (tt, j)

  run_check-Judged : (os : List Op) → Keeps (Judged os) Any (run_check H t)
  unfolding run_check input ◌>>=◌ look runner_of pure lift change
  run_check-Judged os = record { at = λ s j. by s j _ (H.check (read s)) refl }
    where
      read : State → Input
      read s = record {
        requests = H.requests s.world;
        objects = H.objects (looked ∷ s.world);
        timeline = s.runner.timeline;
      }

      by :
          (s : State)
          → Judged os s
          → (w : World) (r : Result Error Findings) → H.check (read s) ≡ r
          → OnError
              (Any {E = Error})
              (continue
                (lifted r)
                (λ f. change (noted f))
                (record { runner = s.runner; world = w })).0
            × Judged os
                (continue
                  (lifted r)
                  (λ f. change (noted f))
                  (record { runner = s.runner; world = w })).1
      by s j w (ok f) e = (tt, first f.violations refl)
        where
          first :
              (vs : List Violation)
              → f.violations ≡ vs
              → IsJudged os (core_of (violate_first vs (record s.runner { notes = f.notes })))
          first [] d = j
          first (v ∷ vs) d =
              violate-IsJudged os v (record s.runner { notes = f.notes })
                (read s, refl, inr (f, vs, e, d)) j
      by s j w (err x) e = (tt, j)

  run_checks-Judged :
      (os : List Op) (k : Checkpoint) (expired : Bool)
      → Keeps (Judged os) Any (run_checks H t k expired)
  unfolding run_checks
  run_checks-Judged os k expired =
      Keeps-then _ _ (Spares-Judged os (read_exits H t) (λ c. read_exits-Spares H t)) (
        Keeps-then _ _ (Keeps-when expired (judge_expired H t k) (λ e. judge_expired-Judged os k))
          (run_check-Judged os))

  unviolated : (cs : List Checkpoint) (o : Option Violation) → o ≡ none → WasFound cs o
  unviolated cs o e = subst (WasFound cs) (sym e) tt

  -- A run with no violation, of these ops.
  pub Has-Judged : (c : Core) → c.violation ≡ none → (s : State) → Has c s → Judged c.ops s
  Has-Judged c clear s h =
      (ap (λ k. k.ops) h, unviolated _ s.runner.violation (ap (λ k. k.violation) h ∙ clear))

  append-Judged :
      (c : Core) (k : Checkpoint)
      → c.violation ≡ none
      → Leads (Has c) (Judged c.ops) (Judged c.ops) (
          change {E = Error}
            (on_timeline (λ l. record l { checkpoints = l.checkpoints ++ k ∷ [] })))
  unfolding change
  append-Judged c k clear = record {
    at = λ s h.
        (ap (λ k. k.ops) h, unviolated _ s.runner.violation (ap (λ k. k.violation) h ∙ clear));
  }

  -- A step that spares the core, in a run with no violation.
  pub Leads-Spares :
      {A : Type 0} {m : Method Error A} (c : Core)
      → c.violation ≡ none
      → Spares c m
      → Leads (Has c) (Has c) (Judged c.ops) m
  Leads-Spares {m = m} c clear h = Leads-Keeps m h (λ s p. p) (Has-Judged c clear)

  -- A checkpoint of a run with no violation yet.
  pub checkpoint-Judged :
      (limit : ℕ) (c : Core) (k : Checkpoint) (expired : Bool)
      → c.violation ≡ none
      → Leads (Has c) (Judged c.ops) (Judged c.ops) (checkpoint H t limit k expired)
  unfolding checkpoint
  checkpoint-Judged limit c k expired clear =
      Leads-bind (Has c) _ _ (Leads-Spares c clear (Spares-look _)) (λ count.
        Leads-bind (Has c) _ _ (Leads-Spares c clear (search (spares_rules) depth 6)) (λ _.
          Leads-bind (Has c) _ _ (Leads-Spares c clear (Spares-look _)) (λ holding.
            Leads-bind (Judged c.ops) _ _ (append-Judged c _ clear)
              (λ _. Leads-Keeps _ (run_checks-Judged c.ops _ expired) (λ s h. h) (λ s h. h)))))
