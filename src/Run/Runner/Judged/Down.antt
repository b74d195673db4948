-- ===== src/Run/Runner/Judged/Down.antt =====
-- The teardown judges a run once more only where nothing was found before.
use botbox.Base.{
  ℕ, String, Bool, true, false, Option, none, some, List, [], ◌∷◌, ◌≡◌, refl, subst, ◌||◌, is_some,
  take, map,
}
use botbox.Base.Action.{Result, ok, err, ◌>>=◌, ◌>>◌, pure, attempt, error_of}
use botbox.Base.Action.Keeps.{
  Leads, Leads-bind, Leads-Keeps, Leads-if, Leads-attempt, Ends, Keeps-bind, Keeps-pure,
}
use botbox.Clock.{Time}
use botbox.Invariant.Deletion.{deletion_overdue}
use botbox.Invariant.{recovery_op}
use botbox.Run.Sequence.{Op}
use botbox.Run.Runner.{
  Note, RunTarget, Harness, Libraries, RunError, State, Method, World, look, runner_of, change,
}
use botbox.Run.Runner.Waits.{checkpoint_of, read_exits}
use botbox.Run.Runner.Apply.{apply_ops}
use botbox.Run.Runner.Down.{
  clear, skip_all, recover, or_failed, or_recover, await_recovery, delete_crs, await_empty,
  teardown_checkpoint, judge_down, judge_if_sound, delete_and_judge, take_down, teardown,
  run_sequence, start_of, checkpoint_at,
}
use botbox.Run.Runner.Core.{
  Core, core_of, Has, Spares, Any, spares_rules, Spares-look, Spares-runner_of,
  read_fault_windows-Spares, wait-Spares, as_of-Spares, read_exits-Spares,
}
use botbox.Run.Runner.Judged.{
  WasFound, Judged, Spares-Judged, Has-Judged, Leads-Spares, checkpoint-Judged,
}
use botbox.Run.Runner.Judged.Ops.{judge-Judged, unviolated, apply_ops-Ran}

module _ (lib : Libraries) (H : Harness) (t : RunTarget) (limit : ℕ) where
  open H use {Error}

  clear-Spares : {c : Core} → Spares c (clear H t limit)
  unfolding clear
  clear-Spares = search (spares_rules, read_fault_windows-Spares) depth 8

  skip_all-Spares : {c : Core} (notes : Option (List Note)) → Spares c (skip_all H t limit notes)
  skip_all-Spares none = search spares_rules
  skip_all-Spares (some notes) = search spares_rules

  or_failed-Spares : {c : Core} (e : Option (RunError Error)) → Spares c (or_failed H t limit e)
  or_failed-Spares none = search spares_rules
  or_failed-Spares (some e) = search spares_rules depth 8

  recover-Judged :
      (c : Core)
      → c.violation ≡ none
      → Leads (Has c) (Judged H t c.ops) (Judged H t c.ops) (recover H t limit)
  unfolding recover
  recover-Judged c clear =
      Leads-bind (Has c) _ _ (Leads-Spares H t c clear (wait-Spares H t 0)) (λ w.
        Leads-bind (Has c) _ _ (Leads-Spares H t c clear (search spares_rules))
          (λ _. judge-Judged lib H t limit c (checkpoint_of w recovery_op) deletion_overdue clear))

  -- What spares each core, from a judged run.
  same-Judged :
      {A : Type 0} (os : List Op) (m : Method Error A)
      → ((c : Core) → Spares c m)
      → Leads (Judged H t os) (Judged H t os) (Judged H t os) m
  same-Judged os m h = Leads-Keeps m (Spares-Judged H t os m h) (λ s j. j) (λ s j. j)

  or_recover-Judged :
      (c : Core) (now : Time)
      → c.violation ≡ none
      → Leads (Has c) (Judged H t c.ops) (Judged H t c.ops) (or_recover H t limit false now)
  unfolding or_recover
  or_recover-Judged c now clear =
      let judged = Has-Judged H t c clear in
      Leads-bind (Has c) _ _ (Leads-Spares H t c clear (as_of-Spares H t now)) (λ inp.
        Leads-if _ _ _ (λ e. Leads-Keeps {Q = Any} (pure tt) (Keeps-pure tt) judged judged)
          (λ e.
            Leads-bind (Judged H t c.ops) _ _ (Leads-attempt _ (recover-Judged c clear))
              (λ e. same-Judged c.ops _ (λ c. or_failed-Spares e))))

  -- A run that was judged, with no violation, is one of this core.
  from_clear :
      {A : Type 0} (os : List Op) (m : Method Error A) (s : State)
      → ((c : Core) → c.violation ≡ none → Leads (Has c) (Judged H t c.ops) (Judged H t c.ops) m)
      → s.runner.violation ≡ none
      → Judged H t os s
      → Ends (Judged H t os) (Judged H t os) (m s).0 (m s).1
  from_clear os m s h clear j =
      subst (λ l. Ends (Judged H t l) (Judged H t l) (m s).0 (m s).1) j.0
        ((h (core_of s.runner) clear).at s refl)

  -- The run goes on by whether it has failed or found a violation.
  by_state :
      {A : Type 0} (os : List Op) (m : Bool → Method Error A)
      → ((c : Core) → Spares c (m true))
      → ((c : Core)
          → c.violation ≡ none
          → Leads (Has c) (Judged H t c.ops) (Judged H t c.ops) (m false))
      → Leads
          (Judged H t os)
          (Judged H t os)
          (Judged H t os)
          (runner_of >>= λ r. m (is_some r.violation || r.failed))
  unfolding ◌>>=◌ runner_of
  by_state {A} os m spares judges = record {
    at = λ s j. by s j (is_some s.runner.violation || s.runner.failed) refl;
  }
    where
      by :
          (s : State)
          → Judged H t os s
          → (b : Bool) → is_some s.runner.violation || s.runner.failed ≡ b
          → Ends (Judged H t os) (Judged H t os) (m b s).0 (m b s).1
      by s j true e = (same-Judged os (m true) spares).at s j
      by s j false e =
          from_clear os (m false) s judges (unviolated s.runner.violation s.runner.failed e) j

  await_recovery-Judged :
      (os : List Op)
      → Leads (Judged H t os) (Judged H t os) (Judged H t os) (await_recovery H t limit)
  unfolding await_recovery or_recover
  await_recovery-Judged os =
      Leads-bind (Judged H t os) _ _ (same-Judged os _ (λ c. Spares-look _)) (λ now.
        by_state os (λ b. or_recover H t limit b now) (λ c. Keeps-pure tt)
          (λ c clear. or_recover-Judged c now clear))

  teardown_checkpoint-Judged :
      (c : Core) (clean : Bool)
      → c.violation ≡ none
      → Leads (Has c) (Judged H t c.ops) (Judged H t c.ops) (teardown_checkpoint H t limit clean)
  unfolding teardown_checkpoint
  teardown_checkpoint-Judged c clean clear =
      Leads-bind (Has c) _ _ (Leads-Spares H t c clear (Spares-look _)) (λ running.
        Leads-bind (Has c) _ _ (Leads-Spares H t c clear (search spares_rules)) (λ _.
          Leads-bind (Has c) _ _ (Leads-Spares H t c clear (Spares-look _))
            (λ now. checkpoint-Judged H t limit c (checkpoint_at now clean) false clear)))

  judge_down-Judged :
      (c : Core) (cut : Option (RunError Error)) (clean : Bool)
      → c.violation ≡ none
      → Leads (Has c) (Judged H t c.ops) (Judged H t c.ops) (judge_down H t limit false cut clean)
  unfolding judge_down
  judge_down-Judged c (some e) clean clear =
      let judged = Has-Judged H t c clear in
      Leads-Keeps {Q = Any} (pure (e ∷ [])) (Keeps-pure _) judged judged
  judge_down-Judged c none clean clear =
      Leads-bind (Judged H t c.ops) _ _ (Leads-attempt _ (teardown_checkpoint-Judged c clean clear))
        (λ e. same-Judged c.ops _ (λ c. Keeps-pure _))

  judge_if_sound-Judged :
      (os : List Op) (emptied : Bool × Option (RunError Error))
      → Leads (Judged H t os) (Judged H t os) (Judged H t os) (judge_if_sound H t limit emptied)
  unfolding judge_if_sound judge_down
  judge_if_sound-Judged os emptied =
      by_state os (λ b. judge_down H t limit b emptied.1 emptied.0) (λ c. Keeps-pure [])
        (λ c clear. judge_down-Judged c emptied.1 emptied.0 clear)

  delete_crs-Spares : {c : Core} (crs : List String) → Spares c (delete_crs H t limit crs)
  unfolding delete_crs
  delete_crs-Spares [] = search spares_rules
  delete_crs-Spares (cr ∷ crs) =
      Keeps-bind _ _ (search spares_rules depth 8)
        (λ e. Keeps-bind _ _ (delete_crs-Spares crs) (λ rest. Keeps-pure _))

  await_empty-Spares :
      {c : Core} (cut : Option (RunError Error)) → Spares c (await_empty H t limit cut)
  unfolding await_empty
  await_empty-Spares none = search spares_rules depth 8
  await_empty-Spares (some e) = search spares_rules depth 8

  delete_and_judge-Judged :
      (os : List Op)
      → Leads (Judged H t os) (Judged H t os) (Judged H t os) (delete_and_judge H t limit)
  unfolding delete_and_judge
  delete_and_judge-Judged os =
      let J = Judged H t os in
      let look_on = λ (A : Type 0) (f : World → A). same-Judged os (look f) (λ c. Spares-look f) in
      Leads-bind J _ _ (look_on _ _) (λ start.
        Leads-bind J _ _ (same-Judged os _ (λ c. search spares_rules)) (λ _.
          Leads-bind J _ _ (same-Judged os _ (λ c. search spares_rules depth 8)) (λ slept.
            Leads-bind J _ _ (look_on _ _) (λ end.
              Leads-bind J _ _ (same-Judged os _ (λ c. search spares_rules)) (λ _.
                Leads-bind J _ _ (same-Judged os _ (λ c. Spares-runner_of)) (λ r.
                  Leads-bind J _ _ (same-Judged os _ (λ c. delete_crs-Spares _)) (λ deletes.
                    Leads-bind J _ _ (same-Judged os _ (λ c. await_empty-Spares slept)) (λ emptied.
                      Leads-bind J _ _ (look_on _ _) (λ over.
                        Leads-bind J _ _ (same-Judged os _ (λ c. search spares_rules)) (λ _.
                          Leads-bind J _ _ (judge_if_sound-Judged os emptied)
                            (λ judged. same-Judged os _ (λ c. Keeps-pure _))))))))))))

  take_down-Spares : {c : Core} (cut : Option (RunError Error)) → Spares c (take_down H t limit cut)
  unfolding take_down
  take_down-Spares cut = search spares_rules depth 16

  teardown-Judged :
      (os : List Op) → Leads (Judged H t os) (Judged H t os) (Judged H t os) (teardown H t limit)
  unfolding teardown
  teardown-Judged os =
      let J = Judged H t os in
      Leads-bind J _ _ (same-Judged os _ (λ c. Spares-look _)) (λ start.
        Leads-bind J _ _ (same-Judged os _ (λ c. search spares_rules)) (λ _.
          Leads-bind J _ _ (same-Judged os _ (λ c. clear-Spares)) (λ _.
            Leads-bind J _ _ (same-Judged os _ (λ c. Spares-runner_of)) (λ r.
              Leads-bind J _ _ (same-Judged os _ (λ c. skip_all-Spares _)) (λ _.
                Leads-bind J _ _ (Leads-attempt _ (await_recovery-Judged os)) (λ recovery.
                  Leads-bind J _ _ (delete_and_judge-Judged os) (λ judged.
                    Leads-bind J _ _ (same-Judged os _ (λ c. take_down-Spares judged.1))
                      (λ down. same-Judged os _ (λ c. Keeps-pure _)))))))))

  -- What follows the ops of a run.
  after_ops :
      Result (RunError Error) (Unit {0})
      → Method Error (Option (RunError Error) × List (RunError Error))
  after_ops r = do
    change (λ q. record q { failed = is_some (error_of r) })
    down ← teardown H t limit
    read_exits H t
    pure (error_of r, down)

  after_ops-Judged :
      (os : List Op) (r : Result (RunError Error) (Unit {0}))
      → Leads (Judged H t os) (Judged H t os) (Judged H t os) (after_ops r)
  unfolding after_ops
  after_ops-Judged os r =
      let J = Judged H t os in
      Leads-bind J _ _ (same-Judged os _ (λ c. search spares_rules)) (λ _.
        Leads-bind J _ _ (teardown-Judged os) (λ down.
          Leads-bind J _ _ (same-Judged os _ (λ c. read_exits-Spares H t))
            (λ _. same-Judged os _ (λ c. Keeps-pure _))))

  in_both :
      {A : Type 0} (P : State → Type 0) (r : Result (RunError Error) A) (s : State)
      → Ends P P r s
      → P s
  in_both P (ok a) s h = h
  in_both P (err e) s h = h

  -- Whatever the live run answers, a run applies the first ops of the sequence, in order, and ends at its
  -- first violation: the violation of its result was found with all the checkpoints of the run, by
  -- ExpiredWait or as the first that Check found, so no checkpoint came after it, the teardown's included.
  pub run_sequence-Judged :
      (ops : List Op) (w : World)
      → let ran =
          run_sequence H t limit lib ops
            (record { runner = start_of lib t H.namespace; world = w }) in
        (n : ℕ) × (map (λ a. a.op) ran.1.runner.timeline.ops ≡ take n ops)
        × WasFound H t ran.1.runner.timeline.checkpoints ran.1.runner.violation
  unfolding run_sequence start_of ◌>>=◌ attempt after_ops
  run_sequence-Judged ops w =
      let s : State = record { runner = start_of lib t H.namespace; world = w } in
      let (n, judged, done) = apply_ops-Ran lib H t limit ops [] s (refl, tt) in
      let (r, s') = apply_ops lib H t limit ops s in
      let (os, found) =
        in_both (Judged H t (take n ops)) (after_ops r s').0 (after_ops r s').1
          ((after_ops-Judged (take n ops) r).at s' judged) in
      (n, os, found)
