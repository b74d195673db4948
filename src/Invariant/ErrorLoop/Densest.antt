-- ===== src/Invariant/ErrorLoop/Densest.antt =====
-- The two ends that `densest` moves along the requests find what a scan of all of them would.
use botbox.Base.{
  ℕ, ◌-◌, ◌≤◌, ◌≡◌, refl, sym, ap, ◌∙◌, Bool, true, false, List, [], ◌∷◌, ◌++◌, if◌then◌else◌,
  arith, length, ltb, leb, filter_by, filter_by-append, All, Bool-cases, inl, inr,
}
use botbox.Clock.{Time}
use botbox.Proxy.Request.{Request}
use botbox.Invariant.ErrorLoop.{drop_old, densest_from, densest}

-- The request started no more than the window before the other.
abbrev fits : ℕ → Request → Request → Bool
fits window r q = leb (r.start - q.start) window

-- For each request in turn, all those up to it that started within the window before it.
abbrev pub bursts : ℕ → List Request → List Request → List (List Request)
bursts window seen [] = []
bursts window seen (r ∷ rs) =
    filter_by (fits window r) (seen ++ r ∷ []) ∷ bursts window (seen ++ r ∷ []) rs

-- The first of the longest.
abbrev pub longest : List Request → List (List Request) → List Request
longest best [] = best
longest best (b ∷ bs) = longest (if ltb (length best) (length b) then b else best) bs

-- The requests are in the order of their starts, from `t` on.
abbrev pub IsSortedFrom : Time → List Request → Type 0
IsSortedFrom t [] = Unit
IsSortedFrom t (r ∷ rs) = (t ≤ r.start) × IsSortedFrom r.start rs

abbrev StartsBy : Time → Request → Type 0
StartsBy t q = q.start ≤ t

module _ (window : ℕ) where
  all_fit :
      (t : Time) (r : Request) (qs : List Request)
      → IsSortedFrom t qs
      → r.start - t ≤ window
      → filter_by (fits window r) qs ≡ qs
  all_fit t r [] s h = refl
  all_fit t r (q ∷ qs) (le, s) h =
      let e : fits window r q ≡ true = ground arith in
      rw e (ap (λ xs. q ∷ xs) (all_fit q.start r qs s (omega arith)))

  -- In order, what is dropped from the front is what does not fit.
  drop_old-filter :
      (t : Time) (r : Request) (qs : List Request)
      → IsSortedFrom t qs
      → drop_old window r qs ≡ filter_by (fits window r) qs
  unfolding drop_old
  drop_old-filter t r [] s = refl
  drop_old-filter t r (q ∷ qs) (le, s) = elim (Bool-cases (ltb window (r.start - q.start))) [
    | inl e ↦
        let f : fits window r q ≡ false = ground arith in rw (e, f) (drop_old-filter q.start r qs s)
    | inr e ↦
        let f : fits window r q ≡ true = ground arith in
        rw (e, f) (ap (λ xs. q ∷ xs) (sym (all_fit q.start r qs s (ground arith))))
  ]

  -- What a later request leaves of the slice of an earlier one.
  refilter :
      (l r : Request) (qs : List Request)
      → l.start ≤ r.start
      → filter_by (fits window r) (filter_by (fits window l) qs) ≡ filter_by (fits window r) qs
  refilter l r [] h = refl
  refilter l r (q ∷ qs) h = elim (Bool-cases (fits window l q)) [
    | inl e ↦ rw (e, refilter l r qs h)
    | inr e ↦ let f : fits window r q ≡ false = ground arith in rw (e, f) (refilter l r qs h)
  ]

  IsSortedFrom-mono :
      (t u : Time) (qs : List Request) → t ≤ u → IsSortedFrom u qs → IsSortedFrom t qs
  IsSortedFrom-mono t u [] h s = tt
  IsSortedFrom-mono t u (q ∷ qs) h (le, s) = (omega arith, s)

  IsSortedFrom-filter :
      (t : Time) (r : Request) (qs : List Request)
      → IsSortedFrom t qs
      → IsSortedFrom t (filter_by (fits window r) qs)
  IsSortedFrom-filter t r [] s = tt
  IsSortedFrom-filter t r (q ∷ qs) (le, s) = elim (Bool-cases (fits window r q)) [
    | inl e ↦ rw e (le, IsSortedFrom-filter q.start r qs s)
    | inr e ↦ rw e (IsSortedFrom-mono t q.start _ le (IsSortedFrom-filter q.start r qs s))
  ]

  All-filter :
      (t : Time) (r : Request) (qs : List Request)
      → All (StartsBy t) qs
      → All (StartsBy t) (filter_by (fits window r) qs)
  All-filter t r [] h = tt
  All-filter t r (q ∷ qs) (p, h) = elim (Bool-cases (fits window r q)) [
    | inl e ↦ rw e (p, All-filter t r qs h)
    | inr e ↦ rw e (All-filter t r qs h)
  ]

  IsSortedFrom-append :
      (t u : Time) (qs : List Request) (r : Request)
      → IsSortedFrom t qs
      → All (StartsBy u) qs
      → t ≤ r.start
      → u ≤ r.start
      → IsSortedFrom t (qs ++ r ∷ [])
  IsSortedFrom-append t u [] r s a h k = (h, tt)
  IsSortedFrom-append t u (q ∷ qs) r (le, s) (p, a) h k =
      (le, IsSortedFrom-append q.start u qs r s a (omega arith) k)

  StartsBy-append :
      (u : Time) (qs : List Request) (r : Request)
      → All (StartsBy u) qs
      → u ≤ r.start
      → All (StartsBy r.start) (qs ++ r ∷ [])
  StartsBy-append u [] r a k = (omega arith, tt)
  StartsBy-append u (q ∷ qs) r (p, a) k = (omega arith, StartsBy-append u qs r a k)

  densest_from_lem :
      (burst slice seen rs : List Request) (lo : Time)
      → ((r : Request)
          → lo ≤ r.start
          → filter_by (fits window r) slice ≡ filter_by (fits window r) seen)
      → IsSortedFrom 0 slice
      → All (StartsBy lo) slice
      → IsSortedFrom lo rs
      → densest_from window burst slice rs ≡ longest burst (bursts window seen rs)
  unfolding densest_from
  densest_from_lem burst slice seen [] lo h s a sr = refl
  densest_from_lem burst slice seen (r ∷ rs) lo h s a (le, sr) =
      let sorted = IsSortedFrom-append 0 lo slice r s a (omega arith) le in
      let now : List Request = filter_by (fits window r) (slice ++ r ∷ []) in
      let next : drop_old window r (slice ++ r ∷ []) ≡ now =
        drop_old-filter 0 r (slice ++ r ∷ []) sorted in
      let scan : now ≡ filter_by (fits window r) (seen ++ r ∷ []) =
        filter_by-append (fits window r) slice (r ∷ [])
        ∙ ap (λ xs. xs ++ filter_by (fits window r) (r ∷ [])) (h r le)
        ∙ sym (filter_by-append (fits window r) seen (r ∷ [])) in
      let rest =
        densest_from_lem (if ltb (length burst) (length now) then now else burst) now
          (seen ++ r ∷ []) rs r.start
          (λ q k. ap (filter_by (fits window q)) scan ∙ refilter r q (seen ++ r ∷ []) k)
          (IsSortedFrom-filter 0 r (slice ++ r ∷ []) sorted)
          (All-filter r.start r (slice ++ r ∷ []) (StartsBy-append lo slice r a le)) sr in
      ap (λ xs. densest_from window (if ltb (length burst) (length xs) then xs else burst) xs rs)
        next
      ∙ rest
      ∙ ap
          (λ xs.
            longest (if ltb (length burst) (length xs) then xs else burst)
              (bursts window (seen ++ r ∷ []) rs))
          scan

longest-le-best :
    (best : List Request) (bs : List (List Request)) → length best ≤ length (longest best bs)
longest-le-best best [] = omega arith
longest-le-best best (b ∷ bs) =
    ground (arith, longest-le-best (if ltb (length best) (length b) then b else best) bs)

longest-le :
    (best : List Request) (bs : List (List Request))
    → All (λ (b : List Request). length b ≤ length (longest best bs)) bs
longest-le best [] = tt
longest-le best (b ∷ bs) =
    let chosen : List Request = if ltb (length best) (length b) then b else best in
    (ground (arith, longest-le-best chosen bs), longest-le chosen bs)

-- On requests in the order of their starts `densest` returns the first of the longest among the bursts
-- that end at each of them, and no request has more repetitions up to it within the window.
pub densest_lem :
    (window : ℕ) (requests : List Request)
    → IsSortedFrom 0 requests
    → (densest requests window ≡ longest [] (bursts window [] requests))
      × All
          (λ (b : List Request). length b ≤ length (densest requests window))
          (bursts window [] requests)
unfolding densest
densest_lem window requests s =
    let e = densest_from_lem window [] [] [] requests 0 (λ r h. refl) tt tt s in
    (e, rw e (longest-le [] (bursts window [] requests)))
