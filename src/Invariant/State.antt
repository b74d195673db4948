-- ===== src/Invariant/State.antt =====
-- internal/invariant/state.go: what the Observer had seen of the run namespace at an instant.
pub mod Replay
pub mod Serves
use botbox.Base.{
  ℕ, String, Bool, true, false, not, ◌&&◌, Option, none, some, List, [], ◌∷◌, map, ◌==◌, filter_by,
  find?, if◌then◌else◌,
}
use botbox.Base.Map.{Map, insert}
use botbox.Base.Sort.{sort_by, is_lt, or_else}
use Prim.Native.String
use botbox.Clock.{Time, after}
use botbox.Observe.{Key, Key-eq, Version, kind_name}
use botbox.Observe.Store.{Store}
use botbox.Observe.Store
use botbox.Invariant.{Input, versions}

pub record State : Type 0 where
  pub at : Time
  pub live : List Version

-- `live`. The order in which Go ranges over the map shows only between versions that compare equal.
unfoldable live_of : Map Key Version → List Version
live_of latest =
    sort_by
      (λ a b. is_lt (
        or_else (String.compare (kind_name a.key.gvk) (kind_name b.key.gvk))
          (String.compare a.key.name b.key.name)))
      (filter_by (λ v. not v.deleted) (map (λ e. e.1) latest))

-- The inner loop of `statesAt`: the versions recorded by t, and those that are left.
unfoldable advance : Time → List Version → Map Key Version → Map Key Version × List Version
advance t [] latest = (latest, [])
advance t (v ∷ vs) latest =
    let next = advance t vs (insert v.key v latest) in
    if after v.time t then (latest, v ∷ vs) else next

-- Its outer loop.
unfoldable states_from : List Version → Map Key Version → List Time → List State
unfolding live_of advance
states_from vs latest [] = []
states_from vs latest (t ∷ times) =
    let (seen, left) = advance t vs latest in
    record { at = t; live = live_of seen } ∷ states_from left seen times

-- `statesAt`
unfoldable pub states_at : Input → List Time → List State
unfolding states_from
states_at inp times = states_from (versions inp) [] times

-- `stateAt`: the one state of the one instant.
unfoldable pub state_at : Input → Time → State
unfolding live_of advance
state_at inp t = record { at = t; live = live_of (advance t (versions inp) []).0 }

-- `version`
unfoldable pub version : State → Key → Option Version
version s key = find? s.live (λ v. v.key == key)

pub managed_by : Option Store → Version → Bool
managed_by none v = false
managed_by (some s) v = Store.is_managed s v.key

-- `managed`. A state without a history holds no version to ask it of.
unfoldable pub managed : State → Input → List Version
unfolding managed_by
managed s inp = filter_by (managed_by inp.history) s.live
