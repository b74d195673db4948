-- ===== src/Proxy/Fault/Serving.antt =====
-- Which fault answers a request.
use botbox.Base.{
  ℕ, ◌+◌, ◌≡◌, refl, Bool, not, ◌&&◌, Option, none, some, List, [], ◌∷◌, arith, find?,
}
use botbox.Clock.{Time}
use botbox.Proxy.Request.{Request}
use botbox.Proxy.Fault.{
  Libraries, InjectedFault, Proxy, FaultAction, error, delay, drop, Answer, draw, applies, expired,
  act_on, fault_for_from, fault_for,
}

-- The action of an answer.
abbrev pub action : Answer → Option FaultAction
action none = none
action (some (a, h)) = some a

module _ {lib : Libraries} where
  -- The fault is active and applies to the request.
  abbrev pub acts : Time → Request → InjectedFault lib → Bool
  acts now r f = not (expired lib f now) && (applies lib f r now).0

  abbrev pub spec_action : Option (InjectedFault lib) → Option FaultAction
  spec_action none = none
  spec_action (some f) = some f.spec.action

  spec-applies :
      (f : InjectedFault lib) (r : Request) (now : Time) → (applies lib f r now).1.spec ≡ f.spec
  unfolding applies draw
  spec-applies f r now = ground arith

  action-act_on :
      (a : FaultAction) (t : Time) (id : ℕ) (f : InjectedFault lib)
      → action (act_on lib a t id f).0 ≡ some a
  action-act_on (delay d) t id f = refl
  action-act_on (error c) t id f = refl
  action-act_on drop t id f = refl

  fault_for_from_lem :
      (now : Time) (r : Request) (id : ℕ) (fs : List (InjectedFault lib))
      → action (fault_for_from lib now r id fs).0 ≡ spec_action (find? fs (acts now r))
  unfolding fault_for_from
  fault_for_from_lem now r id [] = refl
  fault_for_from_lem now r id (f ∷ fs) =
      let ih = fault_for_from_lem now r (id + 1) fs in
      let tried = (applies lib f r now).1 in
      ground (arith, ih, action-act_on tried.spec.action r.start id tried, spec-applies f r now)

-- The proxy answers a request by the action of the first fault, in the order of AddFault, that is
-- active and applies to it, and forwards it where there is none.
pub action-fault_for :
    (lib : Libraries) (now : Time) (r : Request) (p : Proxy lib)
    → action (fault_for lib now r p).0 ≡ spec_action (find? p.faults (acts now r))
unfolding fault_for
action-fault_for lib now r p = fault_for_from_lem now r 0 p.faults
