-- ===== src/Proxy/Fault/Sound.antt =====
-- The bookkeeping of each fault agrees with its trigger, whatever the steps.
use botbox.Base.{
  ℕ, zero, suc, ◌+◌, ◌<◌, ◌≤◌, ◌≡◌, true, false, not, List, [], ◌∷◌, arith, All, All-append,
  All-map, All-update, ltb, nat_eq, length, inl, inr, length-append, length-update, Bool-cases,
  refl,
}
use botbox.Base.Int.{ℤ, pos, negsuc}
use botbox.Clock.{Time, is_zero}
use botbox.Proxy.Request.{Request}
use botbox.Proxy.Fault.{
  Libraries, InjectedFault, FaultSpec, Proxy, FaultAction, error, delay, drop, count_spent,
  count_request, draw, applies, expired, retired_by, earliest, remove, new_fault, add_fault,
  remove_fault, clear_faults, fault_for_from, fault_for, release, act_on, release_hold,
}
use botbox.Proxy.Fault.Steps.{Event, add, request, hold_ended, clear, step, run, HasClock}
use botbox.Proxy.Fault.Steps

abbrev Within : ℤ → ℕ → Type 0
Within (pos (suc n)) applied = applied ≤ suc n
Within _ applied = Unit

module _ {lib : Libraries} where
  pub record IsSound (f : InjectedFault lib) : Type 0 where
    -- A first application is stamped exactly where there was one.
    pub first_stamped : nat_eq f.applied 0 ≡ is_zero f.first
    -- The count is stamped as spent exactly where it is.
    pub spent_stamped : is_zero f.spent ≡ not (count_spent f.spec.until.count f.applied)
    -- No more requests than the count were faulted.
    pub within : Within f.spec.until.count f.applied
    -- Every held request is one that the fault was applied to.
    pub held : length f.holds ≤ f.applied

  count_request-IsSound :
      (now : Time) (f : InjectedFault lib)
      → 0 < now
      → is_zero f.spent ≡ true
      → IsSound f
      → IsSound (count_request lib now f)
  count_request-IsSound now f h e s = counts f.spec.until.count refl
    where
      counts : (c : ℤ) → f.spec.until.count ≡ c → IsSound (count_request lib now f)
      counts (pos zero) q = ground arith
      counts (pos (suc n)) q = ground arith
      counts (negsuc n) q = ground arith

  draw-IsSound : (f : InjectedFault lib) → IsSound f → IsSound (draw lib f).1
  unfolding draw
  draw-IsSound f s = ground arith

  draw-keeps : (f : InjectedFault lib) → ((draw lib f).1.spent ≡ f.spent)
  unfolding draw
  draw-keeps f = ground arith

  draw-holds : (f : InjectedFault lib) → (draw lib f).1.holds ≡ f.holds
  unfolding draw
  draw-holds f = ground arith

  pub applies-IsSound :
      (f : InjectedFault lib) (r : Request) (now : Time)
      → 0 < now
      → is_zero f.spent ≡ true
      → IsSound f
      → IsSound (applies lib f r now).1
  unfolding applies
  applies-IsSound f r now h e s =
      ground (arith, draw-IsSound f s, draw-keeps f, count_request-IsSound now (draw lib f).1 h)

  -- A hit has counted its request, and has begun no hold for it.
  applies-held :
      (f : InjectedFault lib) (r : Request) (now : Time)
      → IsSound f
      → (applies lib f r now).0 ≡ true
      → length (applies lib f r now).1.holds + 1 ≤ (applies lib f r now).1.applied
  unfolding applies
  applies-held f r now s hit = ground (arith, (draw-IsSound f s).held)

  act_on-IsSound :
      (a : FaultAction) (t : Time) (id : ℕ) (f : InjectedFault lib)
      → IsSound f
      → length f.holds + 1 ≤ f.applied
      → IsSound (act_on lib a t id f).1
  act_on-IsSound (delay d) t id f s h = record {
    first_stamped = s.first_stamped;
    spent_stamped = s.spent_stamped;
    within = s.within;
    held = omega (arith, length-append f.holds (record { arrived = t; released = 0 } ∷ []));
  }
  act_on-IsSound (error c) t id f s h = s
  act_on-IsSound drop t id f s h = s

  unexpired :
      (f : InjectedFault lib) (now : Time) → expired lib f now ≡ false → is_zero f.spent ≡ true
  unfolding expired retired_by earliest
  unexpired f now h = ground arith

  fault_for_from-IsSound :
      (now : Time) (r : Request) (id : ℕ) (fs : List (InjectedFault lib))
      → 0 < now
      → All IsSound fs
      → All IsSound (fault_for_from lib now r id fs).1
  unfolding fault_for_from
  fault_for_from-IsSound now r id [] h s = tt
  fault_for_from-IsSound now r id (f ∷ fs) h (s, ss) =
      let rest = fault_for_from-IsSound now r (id + 1) fs h ss in
      let tried =
        λ (e : expired lib f now ≡ false). applies-IsSound f r now h (unexpired f now e) s in
      elim (Bool-cases (expired lib f now)) [
        | inl e ↦ rw e (s, rest)
        | inr e ↦ rw e (elim (Bool-cases (applies lib f r now).0) [
          | inl hit ↦ rw hit (act_on-IsSound _ _ _ _ (tried e) (applies-held f r now s hit), ss)
          | inr miss ↦ rw miss (tried e, rest)
        ])
      ]

  remove-IsSound : (now : Time) (f : InjectedFault lib) → IsSound f → IsSound (remove lib now f)
  unfolding remove
  remove-IsSound now f s = ground arith

  release_hold-IsSound :
      (now : Time) (i : ℕ) (f : InjectedFault lib) → IsSound f → IsSound (release_hold lib now i f)
  release_hold-IsSound now i f s = record {
    first_stamped = s.first_stamped;
    spent_stamped = s.spent_stamped;
    within = s.within;
    held = rw length-update s.held;
  }

  new-IsSound :
      (now : Time) (spec : FaultSpec lib) (g : lib.Rand) → IsSound (new_fault lib now spec g)
  new-IsSound now spec g = counts spec.until.count refl
    where
      counts : (c : ℤ) → spec.until.count ≡ c → IsSound (new_fault lib now spec g)
      counts (pos zero) q = ground arith
      counts (pos (suc n)) q = ground arith
      counts (negsuc n) q = ground arith

  remove_fault-IsSound :
      (now : Time) (id : ℕ) (p : Proxy lib)
      → All IsSound p.faults
      → All IsSound (step lib now (Steps.remove_at id) p).faults
  unfolding step remove_fault
  remove_fault-IsSound now id p ss = elim (Bool-cases (ltb id (length p.faults))) [
    | inl e ↦ rw e (All-update IsSound p.faults id (remove lib now) (remove-IsSound now) ss)
    | inr e ↦ rw e ss
  ]

  -- One step keeps the bookkeeping of every fault.
  pub step-IsSound :
      (now : Time) (e : Event lib) (p : Proxy lib)
      → 0 < now
      → All IsSound p.faults
      → All IsSound (step lib now e p).faults
  unfolding step add_fault clear_faults fault_for release
  step-IsSound now (add spec) p h ss = All-append IsSound p.faults _ ss (new-IsSound now spec _, tt)
  step-IsSound now (Steps.remove_at id) p h ss = remove_fault-IsSound now id p ss
  step-IsSound now clear p h ss = All-map IsSound (remove lib now) p.faults (remove-IsSound now) ss
  step-IsSound now (request r) p h ss = fault_for_from-IsSound now r 0 p.faults h ss
  step-IsSound now (hold_ended (id, i)) p h ss =
      All-update IsSound p.faults id (release_hold lib now i) (release_hold-IsSound now i) ss

  run_from-IsSound :
      (events : List (Time × Event lib)) (p : Proxy lib)
      → HasClock lib events
      → All IsSound p.faults
      → All IsSound (run lib events p).faults
  unfolding run
  run_from-IsSound [] p h ss = ss
  run_from-IsSound ((now, e) ∷ events) p (h, hs) ss =
      run_from-IsSound events (step lib now e p) hs (step-IsSound now e p h ss)

-- From a proxy that holds no fault, after any steps with a running clock, the bookkeeping of every
-- fault agrees with its trigger: a fault with a count was applied to no more requests than its
-- count and is stamped as spent exactly when it reached the count, its first application is stamped
-- exactly when there was one, and it has begun no more holds than it was applied to requests.
pub run-IsSound :
    (lib : Libraries) (seed : ℕ) (events : List (Time × Event lib))
    → HasClock lib events
    → All IsSound (run lib events (record { seed = seed; faults = [] })).faults
run-IsSound lib seed events clock = run_from-IsSound events _ clock tt
