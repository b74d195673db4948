-- ===== src/Invariant/Restart/Reach.antt =====
-- `reached` and `touches` of internal/invariant/attribution.go, and `spares` of g5.go: what the ops between
-- two converged states may have changed.
pub mod Spared
use botbox.Base.{
  String, Bool, true, false, not, ◌||◌, List, [], ◌∷◌, ◌++◌, map, ◌==◌, String-eq, any, contains,
  if◌then◌else◌,
}
use botbox.Observe.{Key-eq, GroupVersionKind-eq, Version}
use botbox.Invariant.{Input, Op, Checkpoint, zero_key, on_fixture}
use botbox.Invariant.State.{state_at}
use botbox.Invariant.Attribution.{is_empty, named_crs}
use botbox.Invariant.Deletion.{history_of}
use botbox.Invariant.Deletion.Clean.{version_at}
use botbox.Invariant.Healing.{or_zero_version}

-- The set `crs` of UIDs is a list.
pub record Reach : Type 0 where
  pub some_op : Bool
  pub everything : Bool
  pub crs : List String

abbrev no_ops : List Op → Bool
no_ops [] = true
no_ops (o ∷ ops) = false

module _ (group_of : String → String) where
  -- What an op that deleted an object reaches.
  abbrev took : Reach → List String → Reach
  took r named = record r { everything = r.everything || is_empty named; crs = named ++ r.crs }

  -- One round of the loop of `reached`.
  unfoldable pub reach_of : Input → Op → Reach → Reach
  unfolding version_at named_crs
  reach_of inp o r =
      let acted = record r {
        everything = r.everything || (on_fixture o.type || o.restored);
        crs = map (λ v. v.uid) (history_of inp.history o.cr) ++ r.crs;
      } in
      if o.deleted == zero_key
      then acted
      else took acted (named_crs group_of inp (or_zero_version (version_at inp o.deleted o.time)))

  unfoldable pub reach_from : Input → List Op → Reach → Reach
  unfolding reach_of
  reach_from inp [] r = r
  reach_from inp (o ∷ ops) r = reach_from inp ops (reach_of inp o r)

  -- `reached`
  unfoldable pub reached : Input → List Op → Reach
  unfolding reach_from
  reached inp ops =
      reach_from inp ops (record { some_op = not (no_ops ops); everything = false; crs = [] })

  -- `touches`
  unfoldable pub touches : Input → Reach → Version → Bool
  unfolding named_crs
  touches inp r v =
      if not r.some_op
      then false
      else if r.everything || contains r.crs v.uid
      then true
      else if v.key.gvk == inp.target.primary
      then false
      else is_empty (named_crs group_of inp v)
        || any (named_crs group_of inp v) (λ uid. contains r.crs uid)

  -- `spares`, of the states that statesAt gives at the two checkpoints, written as those of stateAt.
  unfoldable pub spares : Input → Reach → Checkpoint → Checkpoint → Bool
  unfolding touches
  spares inp r before after =
      any (state_at inp before.time ∷ state_at inp after.time ∷ [])
        (λ s. any s.live (λ v. not (touches inp r v)))
