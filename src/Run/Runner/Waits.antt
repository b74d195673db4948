-- ===== src/Run/Runner/Waits.antt =====
-- internal/run/runner.go: how the Runner reads the run, waits, and has it judged at a checkpoint.
use botbox.Base.{
  ℕ, zero, suc, ◌+◌, ◌-◌, Bool, false, not, ◌||◌, Option, none, some, List, [], ◌∷◌, ◌++◌, ◌==◌,
  String-eq, if◌then◌else◌, length, set, update, get_last?, filter_by, ltb,
}
use botbox.Base.Int.{ℤ, leb_ℤ}
use botbox.Base.Action.{pure, raise, raise?, ◌>>=◌, ◌>>◌, when, for_each}
use botbox.Clock.{Time, is_zero, after}
use botbox.Invariant
use botbox.Invariant.Recovery.{recreate_owed, pending_restart}
use botbox.Invariant.Deletion.{wait_owed, excused}
use botbox.Run.Sequence.{Op}
use botbox.Run.Runner.{
  Window, Wait, AppliedOp, Checkpoint, Violation, Findings, RunTarget, Input, HeldFault, Runner,
  Harness, RunError, harness, target_stopped, too_many_managed, panics, Method, look, call, try,
  lift, runner_of, change, on_timeline, settle, sleep, remove_fault, supervise,
}
use botbox.Run.Runner.Engine.{engine_of, engine_checkpoint}

-- The fault ends at this op or an earlier one.
abbrev pub is_due : ℤ → HeldFault → Bool
is_due op f = elim f.until [ none ↦ false | some until ↦ leb_ℤ until op ]

-- `checkpoint` of a wait.
abbrev pub checkpoint_of : Wait → ℤ → Checkpoint
checkpoint_of w op = record {
  at = w.window.end;
  began = w.window.start;
  op = op;
  converged = w.converged;
  stayed = false;
  held = false;
}

abbrev pub or_first : Option Violation → Violation → Runner → Runner
or_first none v r = record r { violation = some v }
or_first (some w) v r = r

-- `violate`
unfoldable pub violate : Violation → Runner → Runner
violate v r = or_first r.violation v r

-- The loop over what a check found.
abbrev pub violate_first : List Violation → Runner → Runner
violate_first [] r = r
violate_first (v ∷ vs) r = violate v r

-- What `checkpoint` keeps of what Check found.
abbrev pub noted : Findings → Runner → Runner
noted found r = violate_first found.violations (record r { notes = found.notes })

-- The last op's settle wait.
abbrev pub settle_last : Wait → List AppliedOp → List AppliedOp
settle_last w ops = update ops (length ops - 1) (λ a. record a { settled = some w })

module _ (H : Harness) (t : RunTarget) where
  open H use {Error}

  unfoldable pub read_exits : Method Error (Unit {0})
  read_exits = do exits ← look H.exits; change (on_timeline (λ l. record l { exits = exits }))

  -- What `readFaultWindows` writes of one fault.
  unfoldable pub write_window : ℕ → Window → Method Error (Unit {0})
  write_window i w = do
    r ← runner_of
    if ltb i (length r.timeline.faults)
        then change (on_timeline (λ l. record l { faults = set l.faults i w }))
        else raise panics

  unfoldable pub read_windows_of : List HeldFault → Method Error (List HeldFault)
  unfolding write_window
  read_windows_of [] = pure []
  read_windows_of (f ∷ fs) = do
    proxied ← look (λ w. H.fault_window w f.id)
    write_window f.window (record { start = proxied.first; end = proxied.retired })
    rest ← read_windows_of fs
    pure (record f { retired = not (is_zero proxied.retired) } ∷ rest)

  -- `readFaultWindows`
  unfoldable pub read_fault_windows : Method Error (Unit {0})
  unfolding read_windows_of
  read_fault_windows = do
    r ← runner_of
    faults ← read_windows_of r.faults
    change (λ q. record q { faults = faults })

  -- `expireFaults`
  unfoldable pub expire_faults : ℤ → Method Error (Unit {0})
  unfolding read_fault_windows
  expire_faults op = do
    r ← runner_of
    for_each r.faults (λ f. when (is_due op f) (call (remove_fault f.id) (λ w. tt)))
    read_fault_windows
    change (λ q. record q { faults = filter_by (λ f. not f.retired) q.faults })

  -- `asOf`
  unfoldable pub as_of : Time → Method Error Invariant.Input
  unfolding read_fault_windows read_exits
  as_of at = do
    read_fault_windows
    read_exits
    requests ← look H.requests
    objects ← look H.objects
    r ← runner_of
    pure (record (engine_of t requests objects r.timeline) { end = at })

  -- `owed`
  unfoldable pub owed : Method Error Time
  unfolding as_of
  owed = do now ← look H.now; inp ← as_of now; pure (wait_owed inp now)

  -- The calls that a wait makes of `owed`.
  unfoldable pub poll : ℕ → Method Error (Unit {0})
  poll zero = pure tt
  poll (suc n) = do at ← owed; poll n

  -- What `wait` does once the wait converged: the first that does has the target supervised.
  unfoldable pub note_converged : Time → Method Error (Unit {0})
  note_converged end = do
    r ← runner_of
    when (is_zero r.converged) (call supervise (λ w. tt))
    change (λ q. record q { converged = end })

  abbrev pub as_error : Option Error → Option (RunError Error)
  as_error none = none
  as_error (some e) = some (harness e)

  -- `wait`
  unfoldable pub wait : Time → Method Error Wait
  unfolding poll note_converged
  wait floor = do
    start ← look H.now
    polls ← look H.polls
    poll polls
    answer ← call (settle floor) H.settle
    end ← look H.now
    when answer.0 (note_converged end)
    raise? (as_error answer.1)
    pure (record { window = record { start = start; end = end }; converged = answer.0 })

  -- `input`
  unfoldable pub input : Method Error Input
  input = do
    requests ← look H.requests
    objects ← look H.objects
    r ← runner_of
    pure (record { requests = requests; objects = objects; timeline = r.timeline })

  -- The wait that expired, in `checkpoint`.
  unfoldable pub judge_expired : Checkpoint → Method Error (Unit {0})
  unfolding input violate
  judge_expired c = do inp ← input; v ← lift (λ w. H.expired_wait inp c); change (violate v)

  unfoldable pub run_check : Method Error (Unit {0})
  unfolding input
  run_check = do inp ← input; found ← lift (λ w. H.check inp); change (noted found)

  -- `checkpoint`, from where the checkpoint is on the timeline.
  unfoldable pub run_checks : Checkpoint → Bool → Method Error (Unit {0})
  unfolding read_exits judge_expired run_check
  run_checks judged expired = do read_exits; when expired (judge_expired judged); run_check

  -- `checkpoint`, where the harness limit is `limit`.
  unfoldable pub checkpoint : ℕ → Checkpoint → Bool → Method Error (Unit {0})
  unfolding run_checks
  checkpoint limit c expired = do
    count ← look H.managed_count
    when (ltb limit count) (raise (too_many_managed count))
    holding ← look (λ w. H.held w c.at)
    let judged = record c { held = holding.0 || after (holding.1 + t.stable) c.at }
    change (on_timeline (λ l. record l { checkpoints = l.checkpoints ++ judged ∷ [] }))
    run_checks judged expired

  -- What `judge` reads of an excuse.
  unfoldable pub is_unexcused :
      Checkpoint → (Invariant.Input → Invariant.Checkpoint → Bool) → Method Error Bool
  unfolding as_of
  is_unexcused c excuse = do
    running ← look H.is_running
    when (not running) (raise target_stopped)
    inp ← as_of c.at
    pure (not (excuse inp (engine_checkpoint c)))

  -- `judge`
  unfoldable pub judge :
      ℕ → Checkpoint → (Invariant.Input → Invariant.Checkpoint → Bool) → Method Error (Unit {0})
  unfolding checkpoint is_unexcused
  judge limit c excuse = do
    expired ← (if c.converged then pure false else is_unexcused c excuse)
    checkpoint limit c expired

  -- The floor of `settle`.
  unfoldable pub floor_after : Option AppliedOp → Method Error Time
  unfolding as_of
  floor_after none = raise panics
  floor_after (some applied) =
      if applied.deleted == ""
      then pure 0
      else (do now ← look H.now; inp ← as_of now; pure (recreate_owed inp applied.at))

  -- `settle`
  unfoldable pub settle_op : ℕ → Op → Method Error (Unit {0})
  unfolding floor_after wait judge
  settle_op limit op = do
    r ← runner_of
    floor ← floor_after (get_last? r.timeline.ops)
    w ← wait floor
    change (on_timeline (λ l. record l { ops = settle_last w l.ops }))
    judge limit (checkpoint_of w op.index) excused

  -- `awaitRestart`
  unfoldable pub await_restart : Method Error (Unit {0})
  unfolding as_of
  await_restart = do
    now ← look H.now
    inp ← as_of now
    let restart = pending_restart inp now
    when (not (is_zero restart)) (try (sleep (restart - now)) H.sleep)
