-- ===== src/Invariant/ErrorLoop.antt =====
-- internal/invariant/g6.go: the target does not repeat a failing request beyond a threshold.
pub mod Densest
pub mod Verdict
use Prim.Native.String
use Prim.Native.Nat.{compare}
use botbox.Base.{
  ℕ, ◌+◌, ◌-◌, String, Bool, true, false, not, ◌&&◌, ◌||◌, ◌≡◌, ◌↔◌, List, [], ◌∷◌, ◌++◌, ◌==◌, Eq,
  String-eq, if◌then◌else◌, arith, map, length, ltb, leb, nat_eq, Option, none, some, filter_by,
}
use text.Mathlib.TextEquality.{eq_iff}
use mathlib.Core.List.{filter_map, flat_map}
use botbox.Base.Map.{Map, lookup, insert}
use botbox.Base.Sort.{sort_by, or_else, is_lt}
use botbox.Clock.{Time, is_zero, before, after, later}
use botbox.Proxy.Request.{Request}
use botbox.Invariant.{Input, Op, touches_cr, on_fixture, settle_timeout, err_loop, faulted}
use botbox.Invariant.Window.{torn_down, Excerpt, recent}

pub record RequestKey : Type 0 where
  pub verb : String
  pub group : String
  pub resource : String
  pub namespace : String
  pub name : String
  pub subresource : String

pub record Failure : Type 0 where
  pub key : RequestKey
  pub requests : List Request

-- `conflicted`
unfoldable conflicted : Request → Bool
conflicted r = nat_eq r.status 409 && (r.verb == "update" || r.verb == "patch")

-- `failed`
unfoldable failed : Request → Bool
unfolding conflicted
failed r = leb 400 r.status && (not (conflicted r) && r.fault == "")

-- `keyOf`
unfoldable key_of : Request → RequestKey
key_of r = record {
  verb = r.verb;
  group = r.group;
  resource = r.resource;
  namespace = r.namespace;
  name = r.name;
  subresource = r.subresource;
}

-- `specSetAt`, and its loop: the last op by `t` that gave a spec or a fixture.
abbrev sets_spec : Op → Bool
sets_spec o = touches_cr o.type || (on_fixture o.type || o.restored)

abbrev last_set : Time → List Op → Time → Time
last_set t [] since = since
last_set t (o ∷ ops) since =
    last_set t ops (if sets_spec o && not (after o.time t) then o.time else since)

unfoldable spec_set_at : Input → Time → Time
spec_set_at inp t =
    let since = last_set t inp.ops 0 in
    if torn_down inp t && after inp.teardown since then inp.teardown else since

-- The inner loop of `densest`: what is left of the slice up to `r` once it begins within the window.
unfoldable pub drop_old : ℕ → Request → List Request → List Request
drop_old window r [] = []
drop_old window r (q ∷ qs) = if ltb window (r.start - q.start) then drop_old window r qs else q ∷ qs

-- The loop of `densest`: `slice` is requests[first:last], and `burst` the longest so far.
unfoldable pub densest_from : ℕ → List Request → List Request → List Request → List Request
densest_from window burst slice [] = burst
densest_from window burst slice (r ∷ rs) =
    let next = drop_old window r (slice ++ r ∷ []) in
    densest_from window (if ltb (length burst) (length next) then next else burst) next rs

-- `densest`
unfoldable pub densest : List Request → ℕ → List Request
unfolding densest_from drop_old
densest requests window = densest_from window [] [] requests

abbrev request_key_beq : RequestKey → RequestKey → Bool
request_key_beq a b =
    a.verb == b.verb
    && (a.group == b.group
        && (a.resource == b.resource
            && (a.namespace == b.namespace
                && (a.name == b.name && a.subresource == b.subresource))))

pub request_key_beq_iff : (a b : RequestKey) → (request_key_beq a b ≡ true) ↔ (a ≡ b)
request_key_beq_iff a b = ground (
  arith,
  eq_iff a.verb b.verb,
  eq_iff a.group b.group,
  eq_iff a.resource b.resource,
  eq_iff a.namespace b.namespace,
  eq_iff a.name b.name,
  eq_iff a.subresource b.subresource,
)

-- The method `String` of a key.
unfoldable key_text : RequestKey → String
key_text k =
    let resource =
      if k.group == "" then k.resource else String.◌++◌ k.group (String.◌++◌ "/" k.resource) in
    let path =
      String.◌++◌ k.verb (String.◌++◌ " " (String.◌++◌ resource (String.◌++◌ "/" k.name))) in
    if k.subresource == "" then path else String.◌++◌ path (String.◌++◌ "/" k.subresource)

-- A group of failing requests: the stretch of unchanged spec, and what was asked for.
pub record Stretch : Type 0 where
  pub since : Time
  pub key : RequestKey

abbrev stretch_beq : Stretch → Stretch → Bool
stretch_beq a b = nat_eq a.since b.since && request_key_beq a.key b.key

pub stretch_beq_iff : (a b : Stretch) → (stretch_beq a b ≡ true) ↔ (a ≡ b)
stretch_beq_iff a b = ground (arith, request_key_beq_iff a.key b.key)

instance abbrev Stretch-eq : Eq Stretch
Stretch-eq = record { equals = stretch_beq; equals_iff = stretch_beq_iff }

abbrev or_nil : Option (List Request) → List Request
or_nil none = []
or_nil (some rs) = rs

-- A request that counts, in the loop of `repeatedFailures`.
unfoldable pub counts : Input → Request → Bool
unfolding failed
counts inp r = failed r && not (faulted inp r.start r.start)

abbrev stretch_of : Input → Request → Stretch
stretch_of inp r = record { since = spec_set_at inp r.start; key = key_of r }

-- The loop that fills `grouped`.
unfoldable group_from :
    Input → Map Stretch (List Request) → List Request → Map Stretch (List Request)
group_from inp grouped [] = grouped
group_from inp grouped (r ∷ rs) =
    group_from inp
      (if counts inp r
        then insert (stretch_of inp r) (or_nil (lookup (stretch_of inp r) grouped) ++ r ∷ [])
            grouped
        else grouped)
      rs

abbrev pub starts_before : Request → Request → Bool
starts_before a b = before a.start b.start

abbrev start_of : List Request → Time
start_of [] = 0
start_of (r ∷ rs) = r.start

abbrev pub first_start : Failure → Time
first_start f = start_of f.requests

abbrev failure_before : Failure → Failure → Bool
failure_before a b = is_lt (
    or_else (compare (first_start a) (first_start b)) (
      or_else (String.compare (key_text a.key) (key_text b.key))
        (String.compare a.key.namespace b.key.namespace)))

-- `repeatedFailures`
unfoldable repeated_failures : Input → List Failure
unfolding group_from key_text
repeated_failures inp = sort_by failure_before (
    map (λ g. record { key = g.0.key; requests = sort_by starts_before g.1 })
      (group_from inp [] inp.requests))

pub record Violation : Type 0 where
  pub key : RequestKey
  pub times : ℕ
  pub at : Time
  pub requests : Excerpt Request

-- One round of the loop of `NoErrorLoop`.
abbrev pub violation_of : Input → RequestKey → List Request → Option Violation
violation_of inp key [] = none
violation_of inp key (r ∷ rs) =
    if leb (length (r ∷ rs)) (err_loop inp)
    then none
    else some
        (record { key = key; times = length (r ∷ rs); at = r.start; requests = recent (r ∷ rs) })

unfoldable pub judge : Input → Failure → Option Violation
judge inp f = violation_of inp f.key (densest f.requests (settle_timeout inp))

-- `NoErrorLoop`
unfoldable no_error_loop : Input → List Violation
unfolding judge repeated_failures
no_error_loop inp = filter_map (judge inp) (repeated_failures inp)
