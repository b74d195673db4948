-- ===== src/Run/Runner/Ops.antt =====
-- internal/run/runner.go: what the Runner does for an op on a CR, a fault and a managed object. Fixtures
-- has the ops on fixtures.
pub mod Fixtures
use botbox.Base.{
  ℕ, zero, suc, ◌+◌, ◌-◌, String, Bool, true, false, not, ◌&&◌, ◌||◌, Option, none, some, List, [],
  ◌∷◌, ◌++◌, ◌==◌, String-eq, if◌then◌else◌, length, get_elem?, set, ltb, contains, is_some, any,
}
use botbox.Base.Int.{ℤ, pos, negsuc, ℤ-eq, ltb_ℤ, pos_part}
use botbox.Base.Map.{Map, lookup, insert}
use botbox.Base.Action.{
  Action, Result, ok, err, pure, raise, raise?, ◌>>=◌, ◌>>◌, when, attempt_get, reword,
}
use botbox.Clock.{Time, after}
use botbox.Json.{Fields, end}
use botbox.Proxy.Fault
use botbox.Observe.{GroupVersionKind, GroupVersionKind-eq}
use botbox.Invariant.Recovery.{recovering}
use botbox.Invariant.Deletion.{excused}
use botbox.Run.Sequence
use botbox.Run.Sequence.{OpType, Op, on_cr, settles}
use botbox.Run.Sequence.Crs.{cr_name}
use botbox.Run.Sequence.Validate.{fixture}
use botbox.Run.Merge.{merge_patch}
use botbox.Run.Settle.{held_open}
use botbox.Run.Runner.{
  Wait, AppliedOp, RunTarget, HeldFault, Runner, Note, Call, World, ApiResource, Libraries, Harness,
  RunError, harness, refused, target_stopped, no_fixture, cluster_scoped, not_managed,
  not_an_op_type, not_served, stayed, in_op, panics, State, Method, look, call, try, try_get, lift,
  runner_of, change, on_timeline, zero_window, create_cr, patch_cr, delete_cr, await_cr_gone,
  add_fault, create_fixture, patch_fixture, delete_fixture, delete_managed, restart,
}
use botbox.Run.Runner.Engine.{managed_kind}
use botbox.Run.Runner.Waits.{
  expire_faults, as_of, owed, wait, judge, settle_op, await_restart, checkpoint_of,
}

abbrev pub object_of : Option Fields → Fields
object_of none = end
object_of (some obj) = obj

-- `action`
unfoldable pub action_of : Sequence.Action → Fault.FaultAction
action_of a =
    if not (a.error == pos 0)
    then Fault.FaultAction.error (pos_part a.error)
    else if not (a.delay == pos 0)
    then Fault.FaultAction.delay a.delay
    else Fault.FaultAction.drop

abbrev share_of : (lib : Libraries) → Option ℕ → Fault.Libraries.Fraction lib.of_proxy
share_of lib none = lib.whole
share_of lib (some bits) = lib.share bits

-- `spec`
unfoldable pub spec : (lib : Libraries) → Sequence.Fault → Fault.FaultSpec lib.of_proxy
unfolding action_of
spec lib f = record {
  match = record {
    verb = f.match.verb;
    resource = f.match.resource;
    name = f.match.name;
    fraction = share_of lib f.match.fraction;
  };
  action = action_of f.action;
  until = record { count = f.until.count; for = f.until.for };
}

-- The loop of `checkResource`: whether the resource is served, and the name that was meant.
unfoldable pub find_resource :
    (String → String → Bool) → String → List ApiResource → String → Bool × String
find_resource equal_fold resource [] meant = (false, meant)
find_resource equal_fold resource (s ∷ served) meant =
    let rest = find_resource equal_fold resource served (
      if equal_fold s.name resource || equal_fold s.singular_name resource
      then s.name
      else meant) in
    if s.name == resource then (true, meant) else rest

module _ (lib : Libraries) (H : Harness) (t : RunTarget) where
  open H use {Error}
  open lib use {get_name, gvk_of, equal_fold}

  -- `refusal`, of the error that the action raises.
  abbrev pub refusing : Op → Result (RunError Error) (Unit {0}) → Result (RunError Error) (Unit {0})
  refusing op (err (harness e)) = if H.is_refusal e then err (refused op e) else err (harness e)
  refusing op r = r

  abbrev pub or_refused : Op → Method Error (Unit {0}) → Method Error (Unit {0})
  or_refused op m = reword (refusing op) m

  -- `create`
  unfoldable pub create : Op → Method Error (Unit {0})
  create op = do
    let obj = object_of op.obj
    or_refused op (try (create_cr obj) H.create_cr)
    change (λ r.
        if contains r.crs (get_name obj) then r else record r { crs = r.crs ++ get_name obj ∷ [] })

  -- The function that `recreate` gives the wait, and the calls that the wait makes of it.
  unfoldable pub gone_until : Time → Method Error Time
  unfolding owed
  gone_until due = do
    by ← owed H t
    let deadline = if after by due then by else due
    now ← look H.now
    holding ← look (λ w. H.held w deadline)
    pure (held_open holding deadline now t.settle)

  unfoldable pub poll_gone : ℕ → Time → Method Error (Unit {0})
  unfolding gone_until
  poll_gone zero due = pure tt
  poll_gone (suc n) due = do at ← gone_until due; poll_gone n due

  -- The end of `recreate`.
  abbrev pub gone_or_stayed : Bool → Op → String → Time → Method Error (Unit {0})
  gone_or_stayed true op cr start = create op
  gone_or_stayed false op cr start = do
    over ← look H.now
    raise (stayed cr (record { window = record { start = start; end = over }; converged = false }))

  -- `recreate`
  unfoldable pub recreate : Op → String → Method Error (Unit {0})
  unfolding create poll_gone
  recreate op cr = do
    asked ← look H.now
    try (delete_cr cr) H.delete_cr
    start ← look H.now
    polls ← look H.polls
    poll_gone polls (asked + t.delete)
    gone ← try_get (await_cr_gone cr) H.await_cr_gone
    gone_or_stayed gone op cr start

  -- `checkResource`
  unfoldable pub check_resource : String → Method Error (Unit {0})
  unfolding find_resource
  check_resource resource = if resource == "" then pure tt else (do
    served ← lift H.served_resources
    let found = find_resource equal_fold resource served ""
    when (not found.0) (raise (not_served found.1)))

  -- `inject`
  unfoldable pub inject : Op → Sequence.Fault → Method Error (Unit {0})
  inject op fault = do
    change (λ r. record (on_timeline (λ l. record l { faults = l.faults ++ zero_window ∷ [] }) r) {
      fault_ops = r.fault_ops ++ op.index ∷ [];
    })
    id ← call (add_fault fault) H.new_fault
    change (λ r. record r {
      faults =
          r.faults
          ++ record {
            id = id;
            until = fault.until.op;
            window = length r.timeline.faults - 1;
            retired = false;
          }
            ∷ [];
    })

  abbrev pub of_kind : Option GroupVersionKind → Op → Method Error GroupVersionKind
  of_kind none op = raise (not_managed op)
  of_kind (some gvk) op = pure gvk

  abbrev pub skip : Note → Method Error (Unit {0})
  skip note = change (λ r. record r { skipped = r.skipped ++ note ∷ [] })

  -- The managed object that the index names, deleted.
  unfoldable pub delete_nth : GroupVersionKind → Op → ℕ → Option String → Method Error String
  delete_nth gvk op count none = do skip (Note.deleted_nothing op count); pure ""
  delete_nth gvk op count (some name) = do
    deleted ← try_get (delete_managed gvk name) H.delete_managed
    when (not deleted) (skip (Note.gone_before op name))
    pure (if deleted then name else "")

  -- An index below 0, or none, panics.
  abbrev pub at_nth : Option ℤ → GroupVersionKind → Op → List String → Method Error String
  at_nth (some (pos n)) gvk op names = delete_nth gvk op (length names) (get_elem? names n)
  at_nth (some (negsuc n)) gvk op names = raise panics
  at_nth none gvk op names = raise panics

  -- `applyDeleteManaged`
  unfoldable pub apply_delete_managed : Op → Method Error String
  unfolding managed_kind delete_nth
  apply_delete_managed op = do
    gvk ← of_kind (managed_kind t.manages op.kind) op
    names ← look (λ w. H.managed_objects w gvk)
    at_nth op.nth gvk op names
