-- ===== src/Proxy/Fault/Steps.antt =====
-- The proxy's methods as the steps of one run: calls of the Runner, requests of the target and the
-- ends of delays, each at the instant that time.Now returned.
use botbox.Base.{ℕ, ◌<◌, ◌≤◌, Option, none, some, List, [], ◌∷◌}
use botbox.Clock.{Time}
use botbox.Proxy.Request.{Request}
use botbox.Proxy.Fault.{
  Libraries, FaultSpec, Proxy, add_fault, remove_fault, clear_faults, fault_for, release,
}

module _ (lib : Libraries) where
  pub data Event : Type 0 where
    add : FaultSpec lib → Event
    remove_at : ℕ → Event
    clear : Event
    request : Request → Event
    hold_ended : ℕ × ℕ → Event

  abbrev or_same : Proxy lib → Option (Proxy lib) → Proxy lib
  or_same p none = p
  or_same p (some q) = q

  -- A RemoveFault of an id that AddFault never gave panics; such a run has no such step.
  unfoldable pub step : Time → Event → Proxy lib → Proxy lib
  step now (add spec) p = (add_fault lib now spec p).1
  step now (remove_at id) p = or_same p (remove_fault lib now id p)
  step now clear p = clear_faults lib now p
  step now (request r) p = (fault_for lib now r p).1
  step now (hold_ended h) p = release lib now h p

  unfoldable pub run : List (Time × Event) → Proxy lib → Proxy lib
  unfolding step
  run [] p = p
  run ((now, e) ∷ events) p = run events (step now e p)

  -- The clock readings come after the zero time.
  abbrev pub HasClock : List (Time × Event) → Type 0
  HasClock [] = Unit
  HasClock ((now, e) ∷ events) = (0 < now) × HasClock events

  -- The clock does not go back, from `t` on.
  abbrev pub IsOrdered : Time → List (Time × Event) → Type 0
  IsOrdered t [] = Unit
  IsOrdered t ((now, e) ∷ events) = (t ≤ now) × IsOrdered now events

  abbrev pub last_instant : Time → List (Time × Event) → Time
  last_instant t [] = t
  last_instant t ((now, e) ∷ events) = last_instant now events
