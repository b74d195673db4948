-- ===== src/Proxy/Fault/Retired.antt =====
-- A fault that the proxy retired stays retired.
use botbox.Base.{
  ℕ, zero, suc, ◌+◌, ◌≤◌, ◌≡◌, refl, true, List, [], ◌∷◌, ◌++◌, map, arith, inl, inr, Bool-cases,
  update, length, ltb,
}
use botbox.Base.Int.{ℤ, pos, negsuc}
use botbox.Clock.{Time}
use botbox.Proxy.Request.{Request}
use botbox.Proxy.Fault.{
  Libraries, InjectedFault, Proxy, earliest, applies, expired, retired_by, remove, add_fault,
  remove_fault, clear_faults, fault_for_from, fault_for, release, release_hold,
}
use botbox.Proxy.Fault.Steps.{
  Event, add, request, hold_ended, clear, step, run, IsOrdered, last_instant,
}
use botbox.Proxy.Fault.Steps

module _ {lib : Libraries} where
  -- What does not change of a retired fault: that it is retired, and how often it was applied.
  pub record IsRetired (applied : ℕ) (now : Time) (f : InjectedFault lib) : Type 0 where
    pub retired : expired lib f now ≡ true
    pub applied_same : f.applied ≡ applied

  expired_mono :
      (f : InjectedFault lib) (now t : Time)
      → now ≤ t
      → expired lib f now ≡ true
      → expired lib f t ≡ true
  unfolding expired retired_by earliest
  expired_mono f now t h e = counts f.spec.until.for refl
    where
      counts : (d : ℤ) → f.spec.until.for ≡ d → expired lib f t ≡ true
      counts (pos zero) q = ground arith
      counts (pos (suc n)) q = ground arith
      counts (negsuc n) q = ground arith

  mono :
      {n : ℕ} {now : Time} {f : InjectedFault lib} (t : Time)
      → now ≤ t
      → IsRetired n now f
      → IsRetired n t f
  mono {now} {f} t h r = record {
    retired = expired_mono f now t h r.retired;
    applied_same = r.applied_same;
  }

  remove-IsRetired :
      {n : ℕ} {now : Time} (t : Time) (f : InjectedFault lib)
      → IsRetired n now f
      → IsRetired n now (remove lib t f)
  unfolding remove expired retired_by earliest
  remove-IsRetired {n} {now} t f r = removed f.spec.until.for refl
    where
      removed : (d : ℤ) → f.spec.until.for ≡ d → IsRetired n now (remove lib t f)
      removed (pos zero) q = ground arith
      removed (pos (suc k)) q = ground arith
      removed (negsuc k) q = ground arith

  release_hold-IsRetired :
      {n : ℕ} {now : Time} (t : Time) (i : ℕ) (f : InjectedFault lib)
      → IsRetired n now f
      → IsRetired n now (release_hold lib t i f)
  unfolding expired retired_by
  release_hold-IsRetired t i f r = record { retired = r.retired; applied_same = r.applied_same }

  -- The entry at an index is retired.
  abbrev pub RetiredAt : ℕ → ℕ → Time → List (InjectedFault lib) → Type 0
  RetiredAt id n now [] = ⊥
  RetiredAt zero n now (f ∷ fs) = IsRetired n now f
  RetiredAt (suc id) n now (f ∷ fs) = RetiredAt id n now fs

  RetiredAt-mono :
      (id n : ℕ) (now t : Time) (fs : List (InjectedFault lib))
      → now ≤ t
      → RetiredAt id n now fs
      → RetiredAt id n t fs
  RetiredAt-mono id n now t [] h r = r
  RetiredAt-mono zero n now t (f ∷ fs) h r = mono t h r
  RetiredAt-mono (suc id) n now t (f ∷ fs) h r = RetiredAt-mono id n now t fs h r

  RetiredAt-append :
      (id n : ℕ) (now : Time) (fs gs : List (InjectedFault lib))
      → RetiredAt id n now fs
      → RetiredAt id n now (fs ++ gs)
  RetiredAt-append id n now [] gs r = absurd r
  RetiredAt-append zero n now (f ∷ fs) gs r = r
  RetiredAt-append (suc id) n now (f ∷ fs) gs r = RetiredAt-append id n now fs gs r

  RetiredAt-map :
      (id n : ℕ) (now : Time) (g : InjectedFault lib → InjectedFault lib)
      (fs : List (InjectedFault lib))
      → ((f : InjectedFault lib) → IsRetired n now f → IsRetired n now (g f))
      → RetiredAt id n now fs
      → RetiredAt id n now (map g fs)
  RetiredAt-map id n now g [] keep r = r
  RetiredAt-map zero n now g (f ∷ fs) keep r = keep f r
  RetiredAt-map (suc id) n now g (f ∷ fs) keep r = RetiredAt-map id n now g fs keep r

  RetiredAt-update :
      (id i n : ℕ) (now : Time) (g : InjectedFault lib → InjectedFault lib)
      (fs : List (InjectedFault lib))
      → ((f : InjectedFault lib) → IsRetired n now f → IsRetired n now (g f))
      → RetiredAt id n now fs
      → RetiredAt id n now (update fs i g)
  RetiredAt-update id i n now g [] keep r = r
  RetiredAt-update zero zero n now g (f ∷ fs) keep r = keep f r
  RetiredAt-update zero (suc i) n now g (f ∷ fs) keep r = r
  RetiredAt-update (suc id) zero n now g (f ∷ fs) keep r = r
  RetiredAt-update (suc id) (suc i) n now g (f ∷ fs) keep r =
      RetiredAt-update id i n now g fs keep r

  fault_for_from-RetiredAt :
      (now : Time) (r : Request) (from id n : ℕ) (fs : List (InjectedFault lib))
      → RetiredAt id n now fs
      → RetiredAt id n now (fault_for_from lib now r from fs).1
  unfolding fault_for_from
  fault_for_from-RetiredAt now r from id n [] h = h
  fault_for_from-RetiredAt now r from zero n (f ∷ fs) h = rw h.retired h
  fault_for_from-RetiredAt now r from (suc id) n (f ∷ fs) h =
      elim (Bool-cases (expired lib f now)) [
        | inl e ↦ rw e (fault_for_from-RetiredAt now r (from + 1) id n fs h)
        | inr e ↦ rw e (elim (Bool-cases (applies lib f r now).0) [
          | inl hit ↦ rw hit h
          | inr miss ↦ rw miss (fault_for_from-RetiredAt now r (from + 1) id n fs h)
        ])
      ]

  step-RetiredAt :
      (id n : ℕ) (now : Time) (e : Event lib) (p : Proxy lib)
      → RetiredAt id n now p.faults
      → RetiredAt id n now (step lib now e p).faults
  unfolding step add_fault clear_faults fault_for release remove_fault
  step-RetiredAt id n now (add spec) p r = RetiredAt-append id n now p.faults _ r
  step-RetiredAt id n now (Steps.remove_at i) p r = elim (Bool-cases (ltb i (length p.faults))) [
    | inl e ↦ rw e (RetiredAt-update id i n now (remove lib now) p.faults (remove-IsRetired now) r)
    | inr e ↦ rw e r
  ]
  step-RetiredAt id n now clear p r =
      RetiredAt-map id n now (remove lib now) p.faults (remove-IsRetired now) r
  step-RetiredAt id n now (request q) p r = fault_for_from-RetiredAt now q 0 id n p.faults r
  step-RetiredAt id n now (hold_ended (i, j)) p r =
      RetiredAt-update id i n now (release_hold lib now j) p.faults (release_hold-IsRetired now j) r

-- Once a fault is retired, no step after that applies it to a request, whatever the calls, the requests
-- and the ends of delays, as long as the clock does not go back: it stays retired with the same count.
pub run-RetiredAt :
    (lib : Libraries) (id n : ℕ) (now : Time) (events : List (Time × Event lib)) (p : Proxy lib)
    → IsOrdered lib now events
    → RetiredAt id n now p.faults
    → RetiredAt id n (last_instant lib now events) (run lib events p).faults
unfolding run
run-RetiredAt lib id n now [] p h r = r
run-RetiredAt lib id n now ((t, e) ∷ events) p (h, hs) r =
    run-RetiredAt lib id n t events (step lib t e p) hs
      (step-RetiredAt id n t e p (RetiredAt-mono id n now t p.faults h r))
