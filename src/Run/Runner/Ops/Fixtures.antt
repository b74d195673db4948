-- ===== src/Run/Runner/Ops/Fixtures.antt =====
-- internal/run/runner.go: the ops on fixtures, and the fixtures that come back.
use botbox.Base.{
  Bool, true, false, not, Option, none, some, List, [], ◌∷◌, ◌++◌, String-eq, if◌then◌else◌,
  contains, is_some,
}
use botbox.Base.Int.{ℤ, ℤ-eq, ltb_ℤ}
use botbox.Base.Map.{lookup, insert}
use botbox.Base.Action.{Result, ok, err, pure, raise, ◌>>=◌, ◌>>◌, attempt_get}
use botbox.Json.{Fields}
use botbox.Observe.{GroupVersionKind-eq}
use botbox.Run.Sequence
use botbox.Run.Sequence.{OpType, Op, on_cr, settles}
use botbox.Run.Sequence.Validate.{fixture}
use botbox.Run.Merge.{merge_patch}
use botbox.Run.Runner.{
  RunTarget, Libraries, Harness, RunError, no_fixture, cluster_scoped, panics, Method, try,
  runner_of, change, create_fixture, patch_fixture, delete_fixture,
}
use botbox.Run.Runner.Ops.{object_of}

module _ (lib : Libraries) (H : Harness) (t : RunTarget) where
  open H use {Error}
  open lib use {gvk_of}

  -- The change of a fixture that is declared.
  unfoldable pub change_fixture : Op → Option Fields → Method Error (Unit {0})
  change_fixture op none = raise (no_fixture op)
  change_fixture op (some object) =
      let gvk = gvk_of object in
      if contains t.cluster_fixtures gvk
      then raise (cluster_scoped op)
      else if Sequence.op_type_beq op.type OpType.delete_fixture
      then (do
        change (λ r. record r { deleted = r.deleted ++ op ∷ [] })
        try (delete_fixture gvk op.name) H.delete_fixture)
      else (do
        try (patch_fixture gvk op.name (object_of op.patch)) H.patch_fixture
        change (λ r. record r {
          fixtures = insert (fixture op) (merge_patch object (object_of op.patch)) r.fixtures;
        }))

  -- `applyToFixture`
  unfoldable pub apply_to_fixture : Op → Method Error (Unit {0})
  unfolding change_fixture
  apply_to_fixture op = do r ← runner_of; change_fixture op (lookup (fixture op) r.fixtures)

  -- The fixture of a deleteFixture op that is over, created again.
  unfoldable pub create_again : Option Fields → Method Error (Unit {0})
  create_again none = raise panics
  create_again (some object) = try (create_fixture object) H.create_fixture

  -- What `restoreFixtures` answers: whether it created any, and its error.
  abbrev pub Restored : Type 0
  Restored = Bool × Result (RunError Error) (Unit {0})

  -- What one creation leaves of the loop.
  abbrev pub or_stop :
      Result (RunError Error) (Unit {0}) → Bool → Method Error Restored → Method Error Restored
  or_stop (ok a) so_far rest = rest
  or_stop (err e) so_far rest = pure (so_far, err e)

  abbrev pub is_until_after : ℤ → Option ℤ → Bool
  is_until_after op none = false
  is_until_after op (some until) = ltb_ℤ op until

  -- The fixture of an op that is due, and the rest of the loop.
  unfoldable pub restore_one : Op → Bool → Method Error Restored → Method Error Restored
  unfolding create_again
  restore_one d so_far rest = do
    r ← runner_of
    made ← attempt_get (create_again (lookup (fixture d) r.fixtures))
    or_stop made so_far rest

  -- The loop of `restoreFixtures`. An op without its until panics.
  unfoldable pub restore_from : List Op → ℤ → List Op → Bool → Method Error Restored
  unfolding restore_one
  restore_from [] op gone so_far = do
    change (λ r. record r { deleted = gone })
    pure (so_far, ok tt)
  restore_from (d ∷ ds) op gone so_far =
      let later = restore_from ds op (gone ++ d ∷ []) so_far in
      let created = restore_from ds op gone true in
      if not (is_some d.until)
      then pure (so_far, err panics)
      else if is_until_after op d.until
      then later
      else restore_one d so_far created

  -- `restoreFixtures`
  unfoldable pub restore_fixtures : ℤ → Method Error Restored
  unfolding restore_from
  restore_fixtures op = do r ← runner_of; restore_from r.deleted op [] false
