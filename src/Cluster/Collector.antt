-- ===== src/Cluster/Collector.antt =====
-- internal/cluster/collector.go: which objects the garbage collector deletes. Here what it knows of the
-- owners, and what it makes of an object; Sweep has the calls it sends to the API server, and Loop when
-- it sweeps. A REST mapper and schema.FromAPIVersionAndKind are a `Libraries`.
pub mod Sweep
pub mod Loop
pub mod Gone
use text.Mathlib.TextEquality.{eq_iff}
use botbox.Base.{
  has_any, String, Bool, true, false, not, ◌&&◌, ◌||◌, Option, none, some, List, [], ◌∷◌, ◌++◌, ◌≡◌,
  ◌↔◌, Eq, ◌==◌, String-eq, Bool-eq, if◌then◌else◌, is_some, map, arith, bool_eq, bool_eq_iff,
}
use botbox.Base.Map.{Map, lookup, insert}
use botbox.Clock.{Time}
use botbox.Observe.{GroupVersionKind, GroupVersionKind-eq, gvk_beq_iff}

-- schema.GroupKind
pub record GroupKind : Type 0 where
  pub group : String
  pub kind : String

abbrev group_kind_beq : GroupKind → GroupKind → Bool
group_kind_beq a b = a.group == b.group && a.kind == b.kind

pub group_kind_beq_iff : (a b : GroupKind) → (group_kind_beq a b ≡ true) ↔ (a ≡ b)
group_kind_beq_iff a b = ground (arith, eq_iff a.group b.group, eq_iff a.kind b.kind)

instance abbrev pub GroupKind-eq : Eq GroupKind
GroupKind-eq = record { equals = group_kind_beq; equals_iff = group_kind_beq_iff }

-- schema.GroupVersionResource
pub record GroupVersionResource : Type 0 where
  pub group : String
  pub version : String
  pub resource : String

-- metav1.OwnerReference, the fields that the collector reads.
pub record OwnerReference : Type 0 where
  pub api_version : String
  pub kind : String
  pub name : String
  pub uid : String

-- metav1.PartialObjectMetadata, the fields that the collector reads.
pub record Meta : Type 0 where
  pub name : String
  pub namespace : String
  pub uid : String
  pub resource_version : String
  pub deletion_timestamp : Option Time
  pub owner_references : List OwnerReference

-- `watchedKind`; what its store holds is an argument of `objects`.
pub record WatchedKind : Type 0 where
  pub kind : GroupVersionKind
  pub resource : GroupVersionResource

pub record Unresolved : Type 0 where
  pub dependent_kind : GroupVersionKind
  pub dependent_name : String
  pub owner_kind : GroupVersionKind
  pub owner_name : String
  pub unserved : Bool

abbrev unresolved_beq : Unresolved → Unresolved → Bool
unresolved_beq a b =
    a.dependent_kind == b.dependent_kind
    && (a.dependent_name == b.dependent_name
        && (a.owner_kind == b.owner_kind
            && (a.owner_name == b.owner_name && bool_eq a.unserved b.unserved)))

pub unresolved_beq_iff : (a b : Unresolved) → (unresolved_beq a b ≡ true) ↔ (a ≡ b)
unresolved_beq_iff a b = ground (
  arith,
  gvk_beq_iff a.dependent_kind b.dependent_kind,
  eq_iff a.dependent_name b.dependent_name,
  gvk_beq_iff a.owner_kind b.owner_kind,
  eq_iff a.owner_name b.owner_name,
  bool_eq_iff a.unserved b.unserved,
)

instance abbrev pub Unresolved-eq : Eq Unresolved
Unresolved-eq = record { equals = unresolved_beq; equals_iff = unresolved_beq_iff }

-- `object`
pub record Object : Type 0 where
  pub kind : GroupVersionKind
  pub resource : GroupVersionResource
  pub meta : Meta

pub record OwnerKey : Type 0 where
  pub kind : GroupKind
  pub name : String

abbrev owner_key_beq : OwnerKey → OwnerKey → Bool
owner_key_beq a b = a.kind == b.kind && a.name == b.name

pub owner_key_beq_iff : (a b : OwnerKey) → (owner_key_beq a b ≡ true) ↔ (a ≡ b)
owner_key_beq_iff a b = ground (arith, group_kind_beq_iff a.kind b.kind, eq_iff a.name b.name)

instance abbrev pub OwnerKey-eq : Eq OwnerKey
OwnerKey-eq = record { equals = owner_key_beq; equals_iff = owner_key_beq_iff }

-- `owner`: an owner that is gone has no uid.
pub record Owner : Type 0 where
  pub uid : String
  pub unreadable : Bool

-- `owners`, but for its mapper.
pub record Owners : Type 0 where
  pub watched : Map GroupKind WatchedKind
  pub resolved : Map OwnerKey Owner

-- `resolution`, with the kind that `resolve` finds.
pub data Resolution : Type 0 where
  resolvable : WatchedKind → Resolution
  unwatched_kind unserved_version : Resolution

-- Why an owner counts as gone: `Gone`, with `FoundUID`.
pub data Reason : Type 0 where
  not_found : Reason
  another_uid : String → Reason

-- `goneOwner`
pub record GoneOwner : Type 0 where
  pub reference : OwnerReference
  pub reason : Reason

-- meta.RESTMapping
pub record Mapping : Type 0 where
  pub kind : GroupVersionKind
  pub resource : GroupVersionResource
  pub is_namespaced : Bool

pub record Libraries : Type 0 where
  pub kind_of : String → String → GroupVersionKind
  pub rest_mapping : GroupKind → String → Option Mapping

pub data KindsError : Type 0 where
  unknown cluster_scoped : GroupVersionKind → KindsError

-- gvk.GroupKind()
abbrev pub group_kind : GroupVersionKind → GroupKind
group_kind gvk = record { group = gvk.group; kind = gvk.kind }

abbrev pub is_unserved : Resolution → Bool
is_unserved unserved_version = true
is_unserved _ = false

-- The test that keeps the object: the owner was not read, or not found gone.
abbrev pub is_live : Option Owner → String → Bool
is_live none uid = true
is_live (some found) uid = found.unreadable || found.uid == uid

abbrev pub reason : Option Owner → Reason
reason none = not_found
reason (some found) = if not (found.uid == "") then another_uid found.uid else not_found

abbrev pub served : Bool → WatchedKind → Resolution
served true kind = resolvable kind
served false kind = unserved_version

abbrev pub at_watched : Option WatchedKind → Bool → Resolution
at_watched none is_served = unwatched_kind
at_watched (some kind) is_served = served is_served kind

module _ (lib : Libraries) where
  open lib use {kind_of, rest_mapping}

  -- The loop of `namespacedKinds`: the first error, or the map.
  abbrev watch :
      GroupVersionKind
      → Option Mapping
      → (Map GroupKind WatchedKind → Option KindsError × Map GroupKind WatchedKind)
      → Map GroupKind WatchedKind
      → Option KindsError × Map GroupKind WatchedKind
  watch gvk none rest watched = (some (unknown gvk), [])
  watch gvk (some mapping) rest watched =
      if not mapping.is_namespaced
      then (some (cluster_scoped gvk), [])
      else rest (
          insert (group_kind gvk) (record { kind = mapping.kind; resource = mapping.resource })
            watched)

  unfoldable pub namespaced_kinds :
      List GroupVersionKind
      → Map GroupKind WatchedKind
      → Option KindsError × Map GroupKind WatchedKind
  namespaced_kinds [] watched = (none, watched)
  namespaced_kinds (gvk ∷ kinds) watched =
      watch gvk (rest_mapping (group_kind gvk) gvk.version) (namespaced_kinds kinds) watched

  -- `schema.FromAPIVersionAndKind` of a reference.
  abbrev pub named : OwnerReference → GroupVersionKind
  named ref = kind_of ref.api_version ref.kind

  -- `keyOf`
  unfoldable pub key_of : OwnerReference → OwnerKey
  key_of ref = record { kind = group_kind (named ref); name = ref.name }

  -- `resolve`
  unfoldable pub resolve : Owners → OwnerReference → Resolution
  resolve o ref =
      let gvk = named ref in
      at_watched (lookup (group_kind gvk) o.watched)
        (is_some (rest_mapping (group_kind gvk) gvk.version))

  -- One round of the loop of `collectible`.
  abbrev pub judge :
      Resolution
      → Owners
      → Object
      → OwnerReference
      → Bool × List Unresolved
      → Bool × List Unresolved
  judge (resolvable kind) o obj ref (collect, unresolved) =
      ((if is_live (lookup (key_of ref) o.resolved) ref.uid then false else collect), unresolved)
  judge how o obj ref (collect, unresolved) = (
    false,
    unresolved
        ++ record {
          dependent_kind = obj.kind;
          dependent_name = obj.meta.name;
          owner_kind = named ref;
          owner_name = ref.name;
          unserved = is_unserved how;
        }
          ∷ [],
  )

  unfoldable pub collectible_from :
      List OwnerReference → Owners → Object → Bool × List Unresolved → Bool × List Unresolved
  unfolding resolve key_of
  collectible_from [] o obj so_far = so_far
  collectible_from (ref ∷ refs) o obj so_far =
      collectible_from refs o obj (judge (resolve o ref) o obj ref so_far)

  -- `collectible`
  unfoldable pub collectible : Owners → Object → Bool × List Unresolved
  unfolding collectible_from
  collectible o obj =
      collectible_from obj.meta.owner_references o obj (has_any obj.meta.owner_references, [])

  -- `gone`
  unfoldable pub gone : Owners → Object → List GoneOwner
  unfolding key_of
  gone o obj =
      map (λ ref. record { reference = ref; reason = reason (lookup (key_of ref) o.resolved) })
        obj.meta.owner_references

-- The object passes the filter of `objects`: not in the namespace, or marked for deletion, it is left out.
abbrev pub is_kept : String → Meta → Bool
is_kept namespace meta = meta.namespace == namespace && not (is_some meta.deletion_timestamp)

-- What one watch holds; `none` is an entry that is no PartialObjectMetadata.
abbrev pub kept_of : String → WatchedKind → List (Option Meta) → List Object
kept_of namespace watched [] = []
kept_of namespace watched (none ∷ cached) = kept_of namespace watched cached
kept_of namespace watched (some meta ∷ cached) =
    let rest = kept_of namespace watched cached in
    if is_kept namespace meta
    then record { kind = watched.kind; resource = watched.resource; meta = meta } ∷ rest
    else rest

-- `objects`, from what each watch holds.
unfoldable pub objects :
    String → (WatchedKind → List (Option Meta)) → Map GroupKind WatchedKind → List Object
objects namespace store [] = []
objects namespace store (entry ∷ watched) =
    kept_of namespace entry.1 (store entry.1) ++ objects namespace store watched
