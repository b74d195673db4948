-- ===== src/Run/Settle/Readiness.antt =====
-- What `state` of internal/run/settle.go reads: the launcher, the proxy's log and the Observer.
pub mod Decides
use botbox.Base.{
  ℕ, Bool, true, false, not, ◌&&◌, ◌||◌, ◌≡◌, refl, Option, none, some, List, [], ◌∷◌, is_some,
  get_last?, if◌then◌else◌, all, find?, arith, Bool-cases, inl, inr, ◌⊎◌, All, ◌≤◌,
}
use botbox.Clock.{Time, after, later}
use botbox.Json.{Fields}
use botbox.Proxy.Request.{Request}
use botbox.Observe.{GroupVersionKind, Version}
use botbox.Observe.Store.{Store, current}
use botbox.Observe.Store
use botbox.Invariant.Running.{back}
use botbox.Run.Settle.{State, failed, read}

-- What the target's Ready predicate makes of an object: a Bool, ErrNotBool, or another error.
pub data Evaluated : Type 0 where
  holds : Bool → Evaluated
  not_bool : Evaluated
  not_evaluated : Evaluated

-- One round of the loop of `ready`, of a CR that is deleted or is not.
abbrev or_rest : Evaluated → Bool → Option Bool → Option Bool
or_rest not_bool deleting rest = none
or_rest not_evaluated deleting rest = some false
or_rest (holds b) deleting rest = if not b || deleting then some false else rest

-- `ready`: `none` is ErrNotBool.
unfoldable pub ready : (Fields → Evaluated) → List Version → Option Bool
ready predicate [] = some true
ready predicate (cr ∷ crs) =
    or_rest (predicate cr.object) (is_some cr.deletion_timestamp) (ready predicate crs)

-- What the launcher reports of the target, the fields that `state` reads.
pub record Status : Type 0 where
  pub started : Time
  pub restarting : Bool

abbrev pub time_or : Time → Option Version → Time
time_or since none = since
time_or since (some v) = v.time

-- An instant that has not come is the zero time.
abbrev pub or_zero : Option Time → Time
or_zero none = 0
or_zero (some t) = t

-- When the run last changed: the last version recorded, the target's start and its return.
unfoldable pub changed_by : Time → List Version → Time → Option Time → Time
changed_by since recorded started returned =
    later (later (time_or since (get_last? recorded)) started) (or_zero returned)

abbrev answer : Status → Option Time → Time → Option Bool → State (Unit {0})
answer status returned changed none = failed tt
answer status returned changed (some b) =
    read (b && (is_some returned && not status.restarting)) changed

-- `state`, at the instant `now`, of what it read.
unfoldable pub state :
    (Fields → Evaluated)
    → GroupVersionKind
    → Status
    → List Request
    → Store
    → Time
    → Time
    → State (Unit {0})
unfolding changed_by ready
state predicate primary status log store since now =
    let returned = back log status.started in
    answer status returned (changed_by since (Store.window store since now) status.started returned)
      (ready predicate (current store primary))
