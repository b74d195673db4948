-- ===== src/Invariant/Running/Earliest.antt =====
-- Which request shows the target running again, and what its restart is owed.
use botbox.Base.{
  ◌+◌, ◌≤◌, ◌<◌, ◌≡◌, refl, Bool, true, false, not, ◌&&◌, ◌||◌, ◌⊎◌, inl, inr, Option, none, some,
  List, [], ◌∷◌, arith, All, any, nat_eq, if◌then◌else◌, Bool-cases, subst, sym, String-eq, ◌==◌,
}
use botbox.Clock.{Time, is_zero, before, after}
use botbox.Proxy.Request.{Request}
use botbox.Invariant.{Input, settle_timeout}
use botbox.Invariant.Running.{
  leader_election, got_lease, won, electing, first_start, first, then_first, back, settled_after,
  settled_by,
}

-- The instant at which the first request after `since` that matches started: none where there is no such
-- request, and otherwise the start of one of them, with no earlier one.
abbrev IsFirst : List Request → Time → (Request → Bool) → Option Time → Type 0
IsFirst requests since matches none =
    All (λ (r : Request). (after r.start since && matches r) ≡ false) requests
IsFirst requests since matches (some t) =
    (since < t)
    × (any requests (λ r. nat_eq r.start t && matches r) ≡ true)
    × All (λ (r : Request). ((after r.start since && matches r) ≡ false) ⊎ (t ≤ r.start)) requests

module _ (since : Time) (matches : Request → Bool) where
  abbrev taken : Request → Time → Time
  taken r earliest =
      if after r.start since && (matches r && (is_zero earliest || before r.start earliest))
      then r.start
      else earliest

  -- The loop's answer is no later than its start, and than each matching request.
  first_start-le :
      (rs : List Request) (e : Time)
      → ((e ≡ 0) ⊎ (first_start rs since matches e ≤ e))
        × ((e ≡ 0) ⊎ (0 < first_start rs since matches e))
  unfolding first_start
  first_start-le [] e = ground arith
  first_start-le (r ∷ rs) e = ground (arith, first_start-le rs (taken r e))

  first_start-All :
      (rs : List Request) (e : Time)
      → All
          (λ (r : Request).
            ((after r.start since && matches r) ≡ false)
            ⊎ ((0 < first_start rs since matches e) × (first_start rs since matches e ≤ r.start)))
          rs
  unfolding first_start
  first_start-All [] e = tt
  first_start-All (r ∷ rs) e =
      (ground (arith, first_start-le rs (taken r e)), first_start-All rs (taken r e))

  first_start-any :
      (rs : List Request) (e : Time)
      → (first_start rs since matches e ≡ e)
        ⊎ ((since < first_start rs since matches e)
            × (any rs (λ r. nat_eq r.start (first_start rs since matches e) && matches r) ≡ true))
  unfolding first_start
  first_start-any [] e = inl refl
  first_start-any (r ∷ rs) e = ground (arith, first_start-any rs (taken r e))

  none_matches :
      (rs : List Request) (m : Time)
      → m ≡ 0
      → All
          (λ (r : Request).
            ((after r.start since && matches r) ≡ false) ⊎ ((0 < m) × (m ≤ r.start)))
          rs
      → All (λ (r : Request). (after r.start since && matches r) ≡ false) rs
  none_matches [] m e h = tt
  none_matches (r ∷ rs) m e (h, hs) = (ground arith, none_matches rs m e hs)

  no_earlier :
      (rs : List Request) (m : Time)
      → All
          (λ (r : Request).
            ((after r.start since && matches r) ≡ false) ⊎ ((0 < m) × (m ≤ r.start)))
          rs
      → All (λ (r : Request). ((after r.start since && matches r) ≡ false) ⊎ (m ≤ r.start)) rs
  no_earlier [] m h = tt
  no_earlier (r ∷ rs) m (h, hs) = (ground arith, no_earlier rs m hs)

  abbrev Attained : List Request → Time → Type 0
  Attained rs m = (m ≡ 0) ⊎ ((since < m) × (any rs (λ r. nat_eq r.start m && matches r) ≡ true))

  attained :
      (rs : List Request) (m : Time)
      → is_zero m ≡ false
      → Attained rs m
      → (since < m) × (any rs (λ r. nat_eq r.start m && matches r) ≡ true)
  attained rs m z (inl e) = absurd (ground arith)
  attained rs m z (inr a) = a

  found :
      (rs : List Request) (m : Time)
      → first_start rs since matches 0 ≡ m
      → IsFirst rs since matches (if is_zero m then none else some m)
  found rs m e = elim (Bool-cases (is_zero m)) [
    | inl z ↦ rw z (none_matches rs m (ground arith) (subst Bounded e (first_start-All rs 0)))
    | inr z ↦
        let (late, one) = attained rs m z (subst (Attained rs) e (first_start-any rs 0)) in
        rw z (late, one, no_earlier rs m (subst Bounded e (first_start-All rs 0)))
  ]
    where
      Bounded : Time → Type 0
      Bounded m =
          All
            (λ (r : Request).
              ((after r.start since && matches r) ≡ false) ⊎ ((0 < m) × (m ≤ r.start)))
            rs

  first-IsFirst : (rs : List Request) → IsFirst rs since matches (first rs since matches)
  unfolding first
  first-IsFirst rs = found rs (first_start rs since matches 0) refl

-- Which requests show a target running that elects no leader.
abbrev serves : Request → Bool
serves r = not (r.resource == "") && not (leader_election r)

-- A lease won after the get at `got`; nothing without a get.
abbrev IsWon : List Request → Option Time → Option Time → Type 0
IsWon requests none t = t ≡ none
IsWon requests (some got) t = IsFirst requests got won t

-- Which request showed the target back: one that won a lease, where it elects a leader, after one that
-- got the lease; and otherwise one on a resource.
abbrev pub IsBack : List Request → Time → Bool → Option Time → Type 0
IsBack requests since false t = IsFirst requests since serves t
IsBack requests since true t =
    (got : Option Time) × IsFirst requests since got_lease got × IsWon requests got t

won_after :
    (requests : List Request) (got : Option Time) → IsWon requests got (then_first got requests won)
won_after requests none = refl
won_after requests (some got) = first-IsFirst got won requests

-- `Back` reports the first request after `since` on a resource outside leader election, where the target
-- never got a lease; and otherwise the first to win a lease after the first get of one. It reports none
-- exactly where there is no such request.
pub back-IsBack :
    (requests : List Request) (since : Time)
    → IsBack requests since (electing requests) (back requests since)
unfolding back
back-IsBack requests since = elim (Bool-cases (electing requests)) [
  | inl e ↦ rw e (
    first requests since got_lease,
    first-IsFirst since got_lease requests,
    won_after requests (first requests since got_lease),
  )
  | inr e ↦ rw e (first-IsFirst since serves requests)
]

-- A start later than an instant.
abbrev Later : Time → Option Time → Type 0
Later since none = Unit
Later since (some t) = since < t

IsFirst-Later :
    (requests : List Request) (since : Time) (matches : Request → Bool) (t : Option Time)
    → IsFirst requests since matches t
    → Later since t
IsFirst-Later requests since matches none h = tt
IsFirst-Later requests since matches (some t) h = h.0

IsWon-Later :
    (requests : List Request) (since : Time) (got t : Option Time)
    → Later since got
    → IsWon requests got t
    → Later since t
IsWon-Later requests since none t h w = subst (Later since) (sym w) tt
IsWon-Later requests since (some got) none h w = tt
IsWon-Later requests since (some got) (some t) h w = let late = w.0 in omega arith

IsBack-Later :
    (requests : List Request) (since : Time) (elects : Bool) (t : Option Time)
    → IsBack requests since elects t
    → Later since t
IsBack-Later requests since false t h = IsFirst-Later requests since serves t h
IsBack-Later requests since true t (got, f, w) =
    IsWon-Later requests since got t (IsFirst-Later requests since got_lease got f) w

settled_after-le :
    (restart settle : Time) (b : Option Time)
    → Later restart b
    → (restart + settle ≤ settled_after restart settle b)
      × (settled_after restart settle b ≤ restart + settle + settle)
settled_after-le restart settle none h = (omega arith, omega arith)
settled_after-le restart settle (some t) h = ground arith

-- Whatever requests the target makes, its restart is owed timeouts.settle at least and twice that at most.
pub settled_by-le :
    (inp : Input) (restart : Time)
    → (restart + settle_timeout inp ≤ settled_by inp restart)
      × (settled_by inp restart ≤ restart + settle_timeout inp + settle_timeout inp)
unfolding settled_by
settled_by-le inp restart =
    settled_after-le restart (settle_timeout inp) (back inp.requests restart) (
      IsBack-Later inp.requests restart (electing inp.requests) (back inp.requests restart)
        (back-IsBack inp.requests restart))
