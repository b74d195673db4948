-- ===== src/Invariant/Quiet.antt =====
-- internal/invariant/g1.go and g2.go: what a converged target may still do in a quiet window.
pub mod Verdict
pub mod Blame
use mathlib.Core.List.{filter_map}
use botbox.Base.{
  ℕ, ◌+◌, Bool, true, false, not, ◌&&◌, ◌||◌, List, [], ◌∷◌, ◌++◌, ◌==◌, String-eq, if◌then◌else◌,
  length, ltb, leb, Option, none, some, filter_by, any, get_elem?, map,
}
use botbox.Clock.{Time, before, after}
use botbox.Proxy.Request.{Request}
use botbox.Observe.{Version, GroupVersionKind-eq}
use botbox.Observe.Store.{Store, resource, is_managed}
use botbox.Invariant.{Input, quiet_allowance, versions}
use botbox.Invariant.Window.{Quiet, quiet_windows, Excerpt, recent, cons_option}
use botbox.Invariant.Running.{reconciles, writes, writes_status}

-- Inside the window, its ends included.
abbrev pub inside : Quiet → Time → Bool
inside w t = not (before t w.start || after t w.end)

-- `requestsIn`
unfoldable pub requests_in : Input → Quiet → (Request → Bool) → List Request
requests_in inp w keep = filter_by (λ r. inside w r.start && keep r) inp.requests

-- What a check found in one window: the requests or versions that count, and the first that is too many.
pub record Violation {ℓ} (A : Type ℓ) : Type ℓ where
  pub window : Quiet
  pub times : ℕ
  pub at : Time
  pub evidence : Excerpt A

-- More of them than allowed; the violation is at the first beyond the allowance.
abbrev pub beyond : ℕ → Quiet → List Request → Option Request → Option (Violation Request)
beyond allowed w noisy none = none
beyond allowed w noisy (some r) =
    some (record { window = w; times = length noisy; at = r.start; evidence = recent noisy })

unfoldable pub too_many : ℕ → Quiet → List Request → Option (Violation Request)
too_many allowed w noisy =
    if leb (length noisy) allowed then none else beyond allowed w noisy (get_elem? noisy allowed)

-- `BoundedReconciliation`
unfoldable pub bounded_reconciliation : Input → List (Violation Request)
unfolding too_many requests_in
bounded_reconciliation inp =
    filter_map (λ w. too_many (quiet_allowance inp) w (requests_in inp w reconciles))
      (quiet_windows inp)

-- `attributes` and `explains`, of a history that is there: `versions` is empty without one.
unfoldable pub attributes : Input → Store → Version → Bool
attributes inp s v = v.key.gvk == inp.target.primary || is_managed s v.key

unfoldable pub explains : Store → List Request → Version → Bool
explains s written v =
    let res = resource s v.key.gvk in
    any written (λ r.
      not (after r.start v.time)
      && (r.group == res.group
          && (r.resource == res.resource
              && (r.namespace == v.key.namespace && (r.name == "" || r.name == v.key.name)))))

abbrev pub moved_in : Input → Quiet → List Request → Option Store → List Version
moved_in inp w written none = []
moved_in inp w written (some s) =
    filter_by (λ v. inside w v.time && (attributes inp s v && explains s written v)) (versions inp)

-- `changesIn`
unfoldable pub changes_in : Input → Quiet → List Version
unfolding attributes explains
changes_in inp w = moved_in inp w (requests_in inp w (λ r. writes r.verb)) inp.history

abbrev changed : Quiet → List Version → Option (Violation Version)
changed w [] = none
changed w (v ∷ vs) =
    some (record { window = w; times = length (v ∷ vs); at = v.time; evidence = recent (v ∷ vs) })

-- What `NoChurn` finds: changes of objects and too many status writes, window by window.
pub record Churn : Type 0 where
  pub changes : Option (Violation Version)
  pub status_writes : Option (Violation Request)

unfoldable churn_in : Input → Quiet → Churn
unfolding too_many requests_in changes_in
churn_in inp w = record {
  changes = changed w (changes_in inp w);
  status_writes = too_many (quiet_allowance inp) w (requests_in inp w writes_status);
}

-- `NoChurn`
unfoldable no_churn : Input → List Churn
unfolding churn_in
no_churn inp = map (churn_in inp) (quiet_windows inp)
