-- ===== src/Proxy/Fault/Holds.antt =====
-- What the proxy says of the requests that it holds.
use mathlib.Core.List.{foldl}
use botbox.Base.{
  ℕ, ◌<◌, ◌≤◌, sym, get_elem?, some, ◌≡◌, refl, ◌∙◌, Bool, true, false, not, ◌&&◌, ◌||◌, List, [],
  ◌∷◌, arith, any, All, ◌⊎◌, inl, inr, Bool-cases, nat_eq, if◌then◌else◌,
}
use botbox.Clock.{Time, is_zero, before, after, later}
use botbox.Proxy.Fault.{
  Libraries, InjectedFault, Proxy, Hold, last_release, ended_by, expired, retired_by, see_hold,
  held, window, FaultWindow,
}

-- A request that reached the proxy before `t` and that it has not released.
abbrev holds_before : Time → Hold → Bool
holds_before t h = before h.arrived t && is_zero h.released

-- The release of a hold on a request that arrived before `t`, up to `u`.
abbrev ReleasedBy : Time → Time → Hold → Type 0
ReleasedBy t u h = (before h.arrived t ≡ false) ⊎ (h.released ≤ u)

see_hold-holding :
    (t : Time) (s : Bool × Time) (hs : List Hold)
    → (foldl (see_hold t) s hs).0 ≡ s.0 || any hs (holds_before t)
unfolding see_hold
see_hold-holding t (b, u) [] = ground arith
see_hold-holding t (b, u) (h ∷ hs) = ground (arith, see_hold-holding t (see_hold t (b, u) h) hs)

see_hold-le : (t : Time) (s : Bool × Time) (hs : List Hold) → s.1 ≤ (foldl (see_hold t) s hs).1
unfolding see_hold
see_hold-le t (b, u) [] = omega arith
see_hold-le t (b, u) (h ∷ hs) = ground (arith, see_hold-le t (see_hold t (b, u) h) hs)

see_hold-released :
    (t : Time) (s : Bool × Time) (hs : List Hold)
    → All (ReleasedBy t (foldl (see_hold t) s hs).1) hs
unfolding see_hold
see_hold-released t (b, u) [] = tt
see_hold-released t (b, u) (h ∷ hs) = (
  ground (arith, see_hold-le t (see_hold t (b, u) h) hs),
  see_hold-released t (see_hold t (b, u) h) hs,
)

abbrev released_at : Time → Time → Hold → Bool
released_at t u h = before h.arrived t && nat_eq h.released u

see_hold-attained :
    (t : Time) (s : Bool × Time) (hs : List Hold)
    → (s.1 ≡ (foldl (see_hold t) s hs).1)
      ⊎ (any hs (released_at t (foldl (see_hold t) s hs).1) ≡ true)
unfolding see_hold
see_hold-attained t (b, u) [] = inl refl
see_hold-attained t (b, u) (h ∷ hs) = ground (arith, see_hold-attained t (see_hold t (b, u) h) hs)

last_release-zero :
    (ended : Time) (hs : List Hold)
    → 0 < ended
    → is_zero (last_release ended hs) ≡ any hs (λ h. is_zero h.released)
unfolding last_release
last_release-zero ended [] h = ground arith
last_release-zero ended (x ∷ hs) h =
    ground (arith, last_release-zero (if after x.released ended then x.released else ended) hs)

last_release-cons :
    (ended : Time) (x : Hold) (hs : List Hold)
    → is_zero x.released ≡ false
    → last_release ended (x ∷ hs) ≡ last_release (later ended x.released) hs
unfolding last_release
last_release-cons ended x hs e = rw e

last_release-le :
    (ended u : Time) (hs : List Hold)
    → last_release ended hs ≡ u
    → is_zero u ≡ false
    → (ended ≤ u) × All (λ (h : Hold). h.released ≤ u) hs
unfolding last_release
last_release-le ended u [] h z = (omega arith, tt)
last_release-le ended u (x ∷ hs) h z =
    let e : is_zero x.released ≡ false = ground arith in
    let moved = last_release-cons ended x hs e in
    let (above, rest) = last_release-le (later ended x.released) u hs (sym moved ∙ h) z in
    (ground arith, (ground arith, rest))

ReleasedBy-le :
    (t u v : Time) (hs : List Hold) → u ≤ v → All (ReleasedBy t u) hs → All (ReleasedBy t v) hs
ReleasedBy-le t u v [] h a = tt
ReleasedBy-le t u v (x ∷ hs) h (p, a) = (ground arith, ReleasedBy-le t u v hs h a)

module _ {lib : Libraries} where
  -- Whether a fault still holds a request.
  abbrev holding : InjectedFault lib → Bool
  holding f = any f.holds (λ h. is_zero h.released)

  ended_by-zero :
      (f : InjectedFault lib) (now : Time)
      → is_zero (ended_by lib f now) ≡ (not (expired lib f now) || holding f)
  unfolding ended_by expired
  ended_by-zero f now = ground (arith, last_release-zero (retired_by lib f now) f.holds)

  ended_by-le :
      (f : InjectedFault lib) (now : Time)
      → is_zero (ended_by lib f now) ≡ false
      → (retired_by lib f now ≤ ended_by lib f now)
        × All (λ (h : Hold). h.released ≤ ended_by lib f now) f.holds
  unfolding ended_by
  ended_by-le f now h = elim (Bool-cases (is_zero (retired_by lib f now))) [
    | inl e ↦ absurd (ground arith)
    | inr e ↦ last_release-le (retired_by lib f now) (ended_by lib f now) f.holds (ground arith) h
  ]

  -- Every hold of the faults is kept by `u`.
  abbrev AllReleasedBy : Time → Time → List (InjectedFault lib) → Type 0
  AllReleasedBy t u = All (λ (f : InjectedFault lib). All (ReleasedBy t u) f.holds)

  abbrev see_fault : Time → Bool × Time → InjectedFault lib → Bool × Time
  see_fault t s f = foldl (see_hold t) s f.holds

  see_fault-holding :
      (t : Time) (s : Bool × Time) (fs : List (InjectedFault lib))
      → (foldl (see_fault t) s fs).0 ≡ (s.0 || any fs (λ f. any f.holds (holds_before t)))
  see_fault-holding t s [] = ground arith
  see_fault-holding t s (f ∷ fs) =
      ground (arith, see_fault-holding t (see_fault t s f) fs, see_hold-holding t s f.holds)

  see_fault-le :
      (t : Time) (s : Bool × Time) (fs : List (InjectedFault lib))
      → s.1 ≤ (foldl (see_fault t) s fs).1
  see_fault-le t s [] = omega arith
  see_fault-le t s (f ∷ fs) =
      omega (arith, see_fault-le t (see_fault t s f) fs, see_hold-le t s f.holds)

  see_fault-released :
      (t : Time) (s : Bool × Time) (fs : List (InjectedFault lib))
      → AllReleasedBy t (foldl (see_fault t) s fs).1 fs
  see_fault-released t s [] = tt
  see_fault-released t s (f ∷ fs) = (
    ReleasedBy-le t (see_fault t s f).1 _ f.holds (see_fault-le t (see_fault t s f) fs)
        (see_hold-released t s f.holds),
    see_fault-released t (see_fault t s f) fs,
  )

  see_fault-attained :
      (t : Time) (s : Bool × Time) (fs : List (InjectedFault lib))
      → (s.1 ≡ (foldl (see_fault t) s fs).1)
        ⊎ (any fs (λ f. any f.holds (released_at t (foldl (see_fault t) s fs).1)) ≡ true)
  see_fault-attained t s [] = inl refl
  see_fault-attained t s (f ∷ fs) =
      ground (arith, see_fault-attained t (see_fault t s f) fs, see_hold-attained t s f.holds)

-- `Held` reports a hold exactly where some fault has an unreleased hold on a request that arrived
-- before `t`. The release it reports is no earlier than that of any hold on such a request, and is
-- the release of one of them or zero.
held_lem :
    (lib : Libraries) (t : Time) (p : Proxy lib)
    → ((held lib t p).0 ≡ any p.faults (λ f. any f.holds (holds_before t)))
      × AllReleasedBy t (held lib t p).1 p.faults
      × (((held lib t p).1 ≡ 0)
          ⊎ (any p.faults (λ f. any f.holds (released_at t (held lib t p).1)) ≡ true))
unfolding held
held_lem lib t p = (
  see_fault-holding t (false, 0) p.faults,
  see_fault-released t (false, 0) p.faults,
  ground (arith, see_fault-attained t (false, 0) p.faults),
)

-- What `Window` reports of a fault: when it was first applied; and a zero end exactly while the fault
-- is active or still holds a request, and after that an end no earlier than its retirement and the
-- release of each request it held.
window_lem :
    (lib : Libraries) (now : Time) (id : ℕ) (p : Proxy lib) (f : InjectedFault lib)
    → get_elem? p.faults id ≡ some f
    → (w : FaultWindow) × (window lib now id p ≡ some w)
      × (w.first ≡ f.first)
      × (is_zero w.retired ≡ (not (expired lib f now) || holding f))
      × ((w.retired ≡ 0)
          ⊎ ((retired_by lib f now ≤ w.retired)
              × All (λ (h : Hold). h.released ≤ w.retired) f.holds))
unfolding window
window_lem lib now id p f e = (
  record { first = f.first; retired = ended_by lib f now },
  ground arith,
  refl,
  ended_by-zero f now,
  elim (Bool-cases (is_zero (ended_by lib f now))) [
    | inl z ↦ inl (ground arith)
    | inr z ↦ inr (ended_by-le f now z)
  ],
)
