-- ===== src/Observe/Store.antt =====
-- The store of internal/observe/store.go. Its lock makes each method one step. The index of each key
-- is the list of the positions of its versions in the history.

pub mod Index
pub mod Repeats
pub mod Live
pub mod Managed
use mathlib.Core.List.{filter_map}
use botbox.Base.{
  ℕ, ◌+◌, String, Bool, true, false, not, ◌&&◌, ◌||◌, Option, none, some, List, [], ◌∷◌, ◌++◌, map,
  ◌==◌, Bool-eq, String-eq, if◌then◌else◌, length, get_elem?, get_last?, any, filter_by, contains,
  is_some,
}
use botbox.Base.Map.{Map, lookup, insert}
use botbox.Base.Sort.{sort_by, is_lt, or_else}
use Prim.Native.String
use botbox.Clock.{Time, before, after}
use botbox.Observe.{
  GroupVersionKind, GroupVersionKind-eq, Key, Key-eq, OwnerReference, Version, Snapshot, kind_name,
  compare_keys,
}

-- schema.GroupResource
pub record GroupResource : Type 0 where
  pub group : String
  pub resource : String

-- What attributes an object to the target. The REST mapper and the label selector are the API
-- machinery's: `resource_of` is a mapping's resource, and no selector selects all.
pub record Options : Type 0 where
  pub namespace : String
  pub manages : List GroupVersionKind
  pub resource_of : GroupVersionKind → Option GroupResource
  pub selector : Option (List (String × String) → Bool)

pub record Store : Type 0 where
  pub opts : Options
  pub versions : List Version
  pub by_key : Map Key (List ℕ)
  pub excluded : List Key

-- `NewStore`
abbrev pub new_store : Options → Store
new_store opts = record { opts = opts; versions = []; by_key = []; excluded = [] }

-- A key that the map does not hold reads as no positions.
abbrev pub or_empty : Option (List ℕ) → List ℕ
or_empty none = []
or_empty (some ps) = ps

unfoldable pub positions : Store → Key → List ℕ
positions s key = or_empty (lookup key s.by_key)

-- `latest`: the entry at a key's last position.
abbrev version_at : List Version → Option ℕ → Option Version
version_at versions none = none
version_at versions (some p) = get_elem? versions p

unfoldable pub latest : Store → Key → Option Version
latest s key = version_at s.versions (get_last? (positions s key))

-- `record`'s test: the last version of the same key repeats this one.
abbrev pub repeats : Version → Option Version → Bool
repeats v none = false
repeats v (some last) =
    last.uid == v.uid && (last.resource_version == v.resource_version && last.deleted == v.deleted)

-- `record`, which Record and RecordDeletion call.
unfoldable pub record_version : Version → Store → Store
record_version v s = if repeats v (latest s v.key) then s else record s {
  by_key = insert v.key (positions s v.key ++ length s.versions ∷ []) s.by_key;
  versions = s.versions ++ v ∷ [];
}

-- `Exclude`
unfoldable pub exclude : GroupVersionKind → String → Store → Store
exclude gvk name s = record s {
  excluded = record { gvk = gvk; namespace = s.opts.namespace; name = name } ∷ s.excluded;
}

-- `History`: the versions at a key's positions.
unfoldable pub history : Store → Key → List Version
history s key = filter_map (get_elem? s.versions) (positions s key)

unfoldable history_of : Store → GroupVersionKind → String → List Version
unfolding history
history_of s gvk name = history s (record { gvk = gvk; namespace = s.opts.namespace; name = name })

-- `isManaged`
abbrev pub selected : Option (List (String × String) → Bool) → List (String × String) → Bool
selected none labels = true
selected (some matches) labels = matches labels

unfoldable pub version_is_managed : Store → Version → Bool
version_is_managed s v =
    if not (contains s.opts.manages v.key.gvk) || contains s.excluded v.key
    then false
    else selected s.opts.selector v.labels

-- `IsManaged`
unfoldable pub is_managed : Store → Key → Bool
unfolding latest version_is_managed
is_managed s key = elim (latest s key) [ none ↦ false | some v ↦ version_is_managed s v ]

-- `Window`
unfoldable pub window : Store → Time → Time → List Version
window s from to = filter_by (λ v. not (before v.time from) && not (after v.time to)) s.versions

-- `VersionsOf`
unfoldable pub versions_of : Store → GroupVersionKind → Time → List Version
versions_of s gvk t = filter_by (λ v. v.key.gvk == gvk && not (after v.time t)) s.versions

-- `latestAt`: the last in the order recorded, not the one of the latest time.
abbrev last_by : Time → List Version → Option Version → Option Version
last_by t [] found = found
last_by t (v ∷ vs) found = last_by t vs (if not (after v.time t) then some v else found)

unfoldable latest_at : Store → Key → Time → Option Version
unfolding history
latest_at s key t = last_by t (history s key) none

-- The keys of the map, whose order the sorts below forget.
abbrev pub keys : Store → List Key
keys s = map (λ e. e.0) s.by_key

abbrev pub unless_deleted : (Version → Bool) → Option Version → Option Version
unless_deleted keep none = none
unless_deleted keep (some v) = if v.deleted || not (keep v) then none else some v

-- `live`
unfoldable pub live : Store → (Version → Bool) → List Version
unfolding latest compare_keys
live s keep =
    sort_by (λ a b. is_lt (compare_keys a.key b.key))
      (filter_map (λ key. unless_deleted keep (latest s key)) (keys s))

-- `Current`
unfoldable pub current : Store → GroupVersionKind → List Version
unfolding live
current s gvk = live s (λ v. v.key.gvk == gvk)

-- `Managed`
unfoldable pub managed : Store → List Version
unfolding live version_is_managed
managed s = live s (version_is_managed s)

-- `ManagedBy`
unfoldable managed_by : Store → String → List Version
unfolding managed
managed_by s owner = filter_by (λ v. any v.owner_references (λ o. o.uid == owner)) (managed s)

-- `Resource`, whose answer for a kind it cannot resolve is the empty one.
unfoldable pub resource : Store → GroupVersionKind → GroupResource
resource s gvk = elim (s.opts.resource_of gvk) [
  | none ↦ record { group = ""; resource = "" }
  | some r ↦ r
]

abbrev snapshot : Key → Option Version → Option Snapshot
snapshot key none = none
snapshot key (some v) =
    if v.deleted then none else some (record { gvk = key.gvk; name = key.name; object = v.object })

-- `SnapshotAt`
unfoldable snapshot_at : Store → Time → List Snapshot
unfolding latest_at kind_name
snapshot_at s t =
    sort_by
      (λ a b. is_lt (
        or_else (String.compare (kind_name a.gvk) (kind_name b.gvk))
          (String.compare a.name b.name)))
      (filter_map (λ key. snapshot key (latest_at s key t)) (keys s))
