-- ===== src/Run/Runner/Core/Ops.antt =====
-- No op changes what a run is judged by before it settles.
use botbox.Base.{
  ℕ, zero, suc, String, Bool, true, false, Option, none, some, List, [], ◌∷◌, ◌++◌, ◌≡◌, refl,
  if◌then◌else◌, if-cases, is_some, contains, not, String-eq,
}
use botbox.Base.Int.{ℤ, pos, negsuc}
use botbox.Base.Action.{Result, ok, err}
use botbox.Base.Action.Keeps.{Keeps-bind, Keeps-pure, Keeps-if, Keeps-attempt_get}
use botbox.Base.Map.{lookup}
use botbox.Run.Sequence.Validate.{fixture}
use botbox.Clock.{Time}
use botbox.Json.{Fields}
use botbox.Observe.{GroupVersionKind}
use botbox.Run.Sequence
use botbox.Run.Sequence.{Op, OpType}
use botbox.Run.Runner.{RunTarget, Runner, Libraries, Harness, RunError, Method}
use botbox.Run.Runner.Ops.{
  create, gone_until, poll_gone, gone_or_stayed, recreate, check_resource, inject, of_kind,
  delete_nth, at_nth, apply_delete_managed,
}
use botbox.Run.Runner.Ops.Fixtures.{
  change_fixture, apply_to_fixture, create_again, or_stop, restore_one, restore_from,
  is_until_after, restore_fixtures, Restored,
}
use botbox.Run.Runner.Apply.{named_none, apply_fault, apply_as}
use botbox.Run.Runner.Core.{Core, core_of, Spares, spares_rules, owed-Spares, Spares-runner_of}

named_once :
    (r : Runner) (name : String)
    → core_of (if contains r.crs name then r else record r { crs = r.crs ++ name ∷ [] }) ≡ core_of r
named_once r name =
    if-cases (λ q. core_of q ≡ core_of r) (contains r.crs name) r
      (record r { crs = r.crs ++ name ∷ [] }) (λ e. refl) (λ e. refl)

module _ (lib : Libraries) (H : Harness) (t : RunTarget) {c : Core} where
  open H use {Error}

  create-Spares : (op : Op) → Spares c (create lib H t op)
  unfolding create
  create-Spares op = search (spares_rules, named_once) depth 12

  gone_until-Spares : (due : Time) → Spares c (gone_until lib H t due)
  unfolding gone_until
  gone_until-Spares due = search (spares_rules, owed-Spares) depth 12

  poll_gone-Spares : (n : ℕ) (due : Time) → Spares c (poll_gone lib H t n due)
  unfolding poll_gone
  poll_gone-Spares zero due = search spares_rules
  poll_gone-Spares (suc n) due =
      Keeps-bind _ _ (gone_until-Spares due) (λ at. poll_gone-Spares n due)

  gone_or_stayed-Spares :
      (gone : Bool) (op : Op) (cr : String) (start : Time)
      → Spares c (gone_or_stayed lib H t gone op cr start)
  gone_or_stayed-Spares true op cr start = create-Spares op
  gone_or_stayed-Spares false op cr start = search spares_rules depth 12

  recreate-Spares : (op : Op) (cr : String) → Spares c (recreate lib H t op cr)
  unfolding recreate
  recreate-Spares op cr = search (spares_rules, poll_gone-Spares, gone_or_stayed-Spares) depth 12

  check_resource-Spares : (resource : String) → Spares c (check_resource lib H t resource)
  unfolding check_resource
  check_resource-Spares resource = search spares_rules depth 12

  inject-Spares : (op : Op) (fault : Sequence.Fault) → Spares c (inject lib H t op fault)
  unfolding inject
  inject-Spares op fault = search spares_rules depth 12

  delete_nth-Spares :
      (gvk : GroupVersionKind) (op : Op) (n : ℕ) (name : Option String)
      → Spares c (delete_nth lib H t gvk op n name)
  unfolding delete_nth
  delete_nth-Spares gvk op n none = search spares_rules depth 12
  delete_nth-Spares gvk op n (some name) = search spares_rules depth 12

  at_nth-Spares :
      (nth : Option ℤ) (gvk : GroupVersionKind) (op : Op) (names : List String)
      → Spares c (at_nth lib H t nth gvk op names)
  at_nth-Spares (some (pos n)) gvk op names = delete_nth-Spares gvk op _ _
  at_nth-Spares (some (negsuc n)) gvk op names = search spares_rules
  at_nth-Spares none gvk op names = search spares_rules

  of_kind-Spares : (gvk : Option GroupVersionKind) (op : Op) → Spares c (of_kind lib H t gvk op)
  of_kind-Spares none op = search spares_rules
  of_kind-Spares (some gvk) op = search spares_rules

  apply_delete_managed-Spares : (op : Op) → Spares c (apply_delete_managed lib H t op)
  unfolding apply_delete_managed
  apply_delete_managed-Spares op = search (spares_rules, at_nth-Spares, of_kind-Spares) depth 12

  change_fixture-Spares :
      (op : Op) (object : Option Fields) → Spares c (change_fixture lib H t op object)
  unfolding change_fixture
  change_fixture-Spares op none = search spares_rules
  change_fixture-Spares op (some object) = search spares_rules depth 12

  apply_to_fixture-Spares : (op : Op) → Spares c (apply_to_fixture lib H t op)
  unfolding apply_to_fixture
  apply_to_fixture-Spares op = search (spares_rules, change_fixture-Spares) depth 12

  create_again-Spares : (object : Option Fields) → Spares c (create_again lib H t object)
  unfolding create_again
  create_again-Spares none = search spares_rules
  create_again-Spares (some object) = search spares_rules

  or_stop-Spares :
      (r : Result (RunError Error) (Unit {0})) (so_far : Bool)
      (rest : Method Error (Restored lib H t))
      → Spares c rest
      → Spares c (or_stop lib H t r so_far rest)
  or_stop-Spares (ok a) so_far rest h = h
  or_stop-Spares (err e) so_far rest h = search spares_rules

  restore_one-Spares :
      (d : Op) (so_far : Bool) (rest : Method Error (Restored lib H t))
      → Spares c rest
      → Spares c (restore_one lib H t d so_far rest)
  unfolding restore_one
  restore_one-Spares d so_far rest h = Keeps-bind _ _ Spares-runner_of (λ r.
      Keeps-bind _ _ (Keeps-attempt_get _ (create_again-Spares (lookup (fixture d) r.fixtures)))
        (λ m. or_stop-Spares m so_far rest h))

  restore_from-Spares :
      (ds : List Op) (op : ℤ) (gone : List Op) (so_far : Bool)
      → Spares c (restore_from lib H t ds op gone so_far)
  unfolding restore_from
  restore_from-Spares [] op gone so_far = search spares_rules depth 12
  restore_from-Spares (d ∷ ds) op gone so_far =
      let created = restore_from lib H t ds op gone true in
      let kept = restore_from lib H t ds op (gone ++ d ∷ []) so_far in
      Keeps-if (not (is_some d.until)) _ _ (λ e. Keeps-pure _)
        (λ e.
          Keeps-if (is_until_after lib H t op d.until) kept (restore_one lib H t d so_far created)
            (λ f. restore_from-Spares ds op (gone ++ d ∷ []) so_far)
            (λ f. restore_one-Spares d so_far created (restore_from-Spares ds op gone true)))

  pub restore_fixtures-Spares : (op : ℤ) → Spares c (restore_fixtures lib H t op)
  unfolding restore_fixtures
  restore_fixtures-Spares op = search (spares_rules, restore_from-Spares) depth 12

module _ (lib : Libraries) (H : Harness) (t : RunTarget) (limit : ℕ) {c : Core} where
  open H use {Error}

  apply_fault-Spares :
      (op : Op) (fault : Option Sequence.Fault) → Spares c (apply_fault lib H t limit op fault)
  unfolding apply_fault
  apply_fault-Spares op none = search spares_rules
  apply_fault-Spares op (some fault) =
      search (spares_rules, check_resource-Spares lib H t, inject-Spares lib H t) depth 12

  named_none-Spares :
      (m : Method Error (Unit {0})) → Spares c m → Spares c (named_none lib H t limit m)
  named_none-Spares m h = Keeps-bind m _ h (λ _. Keeps-pure _)

  pub apply_as-Spares :
      (type : OpType) (op : Op) (cr : String) → Spares c (apply_as lib H t limit type op cr)
  unfolding apply_as
  apply_as-Spares OpType.create op cr = named_none-Spares _ (create-Spares lib H t op)
  apply_as-Spares OpType.update op cr = named_none-Spares _ (search spares_rules depth 12)
  apply_as-Spares OpType.delete op cr = named_none-Spares _ (search spares_rules)
  apply_as-Spares OpType.recreate op cr = named_none-Spares _ (recreate-Spares lib H t op cr)
  apply_as-Spares OpType.restart op cr = named_none-Spares _ (search spares_rules)
  apply_as-Spares OpType.fault op cr = named_none-Spares _ (apply_fault-Spares op op.fault)
  apply_as-Spares OpType.delete_managed op cr = apply_delete_managed-Spares lib H t op
  apply_as-Spares OpType.update_fixture op cr =
      named_none-Spares _ (apply_to_fixture-Spares lib H t op)
  apply_as-Spares OpType.delete_fixture op cr =
      named_none-Spares _ (apply_to_fixture-Spares lib H t op)
  apply_as-Spares OpType.settle op cr = search spares_rules
  apply_as-Spares (OpType.other s) op cr = search spares_rules
