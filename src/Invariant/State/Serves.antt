-- ===== src/Invariant/State/Serves.antt =====
-- What a state serves: the last version recorded of each object by its instant.
use botbox.Base.{
  In, In-filter_by, true, false, not, ◌&&◌, Option, none, some, List, [], ◌∷◌, ◌==◌, ◌≡◌, refl, ap,
  sym, ◌∙◌, if◌then◌else◌, arith, if-cases, map,
}
use mathlib.Core.Option.{some-injective}
use botbox.Base.Sort.{In-of_sort_by}
use botbox.Base.Map.{Map, lookup, insert, lookup-insert}
use botbox.Base.Ascending.{IsAscending, AreAtLeast, sort_by-IsAscending, find?-sort_by}
use botbox.Base.Keyed.{AreKeyed, insert-AreKeyed, lookup-In, if_kept, find?-kept, kept-IsOnly}
use botbox.Clock.{Time, after}
use botbox.Observe.{Key, Key-eq, Version}
use botbox.Invariant.{Input, versions, versions_in, window_of, end_of}
use botbox.Invariant.State.{live_of, advance, state_at, version}

-- The last version of the object by t in the list, or else the one found before.
abbrev pub last_seen : Key → Time → List Version → Option Version → Option Version
last_seen key t [] found = found
last_seen key t (v ∷ vs) found =
    last_seen key t vs (if v.key == key && not (after v.time t) then some v else found)

last_seen-none :
    (key : Key) (t n : Time) (vs : List Version) (found : Option Version)
    → after n t ≡ true
    → AreAtLeast (λ v. v.time) n vs
    → last_seen key t vs found ≡ found
last_seen-none key t n [] found h k = refl
last_seen-none key t n (v ∷ vs) found h (i, k) =
    let late : after v.time t ≡ true = ground arith in
    if-cases (λ o. last_seen key t vs o ≡ found) (v.key == key && not (after v.time t)) (some v)
      found (λ e. absurd (ground arith)) (λ e. last_seen-none key t n vs found h k)

versions-IsAscending : (inp : Input) → IsAscending (λ v. v.time) (versions inp)
unfolding versions versions_in
versions-IsAscending inp =
    sort_by-IsAscending (λ (v : Version). v.time) (window_of inp.history 0 (end_of inp))

lookup-advance :
    (key : Key) (t : Time) (vs : List Version) (latest : Map Key Version)
    → IsAscending (λ v. v.time) vs
    → lookup key (advance t vs latest).0 ≡ last_seen key t vs (lookup key latest)
unfolding advance
lookup-advance key t [] latest h = refl
lookup-advance key t (v ∷ vs) latest (i, h) =
    if-cases (λ o. lookup key o.0 ≡ last_seen key t (v ∷ vs) (lookup key latest)) (after v.time t)
      (latest, v ∷ vs) (advance t vs (insert v.key v latest))
      (λ e. sym (last_seen-none key t v.time (v ∷ vs) (lookup key latest) e (omega arith, i)))
      (λ e. lookup-advance key t vs (insert v.key v latest) h ∙ ap (last_seen key t vs) (at_once e))
  where
    at_once :
        after v.time t ≡ false
        → lookup key (insert v.key v latest)
          ≡ (if v.key == key && not (after v.time t) then some v else lookup key latest)
    at_once e = ground (arith, lookup-insert v.key key v latest)

advance-AreKeyed :
    (t : Time) (vs : List Version) (latest : Map Key Version)
    → AreKeyed (λ v. v.key) latest
    → AreKeyed (λ v. v.key) (advance t vs latest).0
unfolding advance
advance-AreKeyed t [] latest h = h
advance-AreKeyed t (v ∷ vs) latest h =
    if-cases (λ o. AreKeyed (λ v. v.key) o.0) (after v.time t) (latest, v ∷ vs)
      (advance t vs (insert v.key v latest)) (λ e. h)
      (λ e. advance-AreKeyed t vs (insert v.key v latest) (insert-AreKeyed (λ v. v.key) v latest h))

-- The state at t holds an object exactly where the last version that the run recorded of it by t, in
-- the order of their times, is none of its deletion, and then as that version.
pub version-state_at :
    (inp : Input) (key : Key) (t : Time)
    → version (state_at inp t) key
      ≡ if_kept (λ v. not v.deleted) (last_seen key t (versions inp) none)
unfolding version state_at live_of lookup
version-state_at inp key t =
    let m = (advance t (versions inp) []).0 in
    let keyed : AreKeyed (λ v. v.key) m = advance-AreKeyed t (versions inp) [] tt in
    find?-sort_by (λ v. v.key == key) _ _
      (kept-IsOnly (λ v. v.key) (λ v. not v.deleted) key m keyed)
    ∙ find?-kept (λ v. v.key) (λ v. not v.deleted) key m keyed
    ∙ ap (if_kept (λ v. not v.deleted))
        (lookup-advance key t (versions inp) [] (versions-IsAscending inp))

-- No two versions in a state are of the same object.
pub state_at_unique :
    (inp : Input) (t : Time) {v w : Version}
    → In v (state_at inp t).live
    → In w (state_at inp t).live
    → v.key ≡ w.key
    → v ≡ w
unfolding state_at live_of lookup
state_at_unique inp t {v = v} {w = w} m n e =
    some-injective v w (sym (found m) ∙ ap (λ k. lookup k seen) e ∙ found n)
  where
    seen : Map Key Version
    seen = (advance t (versions inp) []).0

    found : {u : Version} → In u (state_at inp t).live → lookup u.key seen ≡ some u
    found {u = u} k =
        let (old, alive) =
          In-filter_by (λ (x : Version). not x.deleted)
            (map (λ (entry : Key × Version). entry.1) seen) (In-of_sort_by _ _ k) in
        lookup-In (λ x. x.key) u seen (advance-AreKeyed t (versions inp) [] tt) old
