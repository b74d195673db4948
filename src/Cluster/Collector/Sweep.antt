-- ===== src/Cluster/Collector/Sweep.antt =====
-- internal/cluster/collector.go: a sweep, with the calls that it makes. The API server, the clock and the
-- collector's context answer from the calls made so far, latest first.
pub mod Reads
pub mod Tries
pub mod Spares
pub mod Deletes
use botbox.Base.{
  String, Bool, true, false, not, ◌||◌, Option, none, some, List, [], ◌∷◌, ◌++◌, if◌then◌else◌,
  is_some,
}
use botbox.Base.Map.{Map, lookup, insert}
use botbox.Clock.{Time}
use botbox.Observe.{kind_name}
use botbox.Cluster.Collector.{
  GroupKind, GroupKind-eq, GroupVersionResource, OwnerReference, Meta, WatchedKind, Unresolved,
  Unresolved-eq, Object, OwnerKey, OwnerKey-eq, Owner, Owners, Resolution, resolvable,
  unwatched_kind, unserved_version, GoneOwner, Libraries, key_of, resolve, collectible, gone,
}

-- What Get answers: the object's uid, or an error.
pub data Got (E : Type 0) : Type 0 where
  found : String → Got E
  refused : E → Got E

-- The preconditions of a delete.
pub record Preconditions : Type 0 where
  pub uid : String
  pub resource_version : String

-- What the collector does to the world: it asks whether its context has ended, reads and deletes objects
-- of the namespace, and has `notify` called after `retryDelay`.
pub data Call (E : Type 0) : Type 0 where
  ended : Bool → Call E
  get : GroupVersionResource → String → Got E → Call E
  delete : GroupVersionResource → String → Preconditions → Option E → Call E
  retry : Call E

abbrev pub World : Type 0 → Type 0
World E = List (Call E)

pub record Api : Type 1 where
  pub Error : Type 0
  pub is_not_found : Error → Bool
  pub is_conflict : Error → Bool
  pub has_ended : World Error → Bool
  pub now : World Error → Time
  pub get_object : World Error → GroupVersionResource → String → Got Error
  pub delete_object : World Error → GroupVersionResource → String → Preconditions → Option Error

-- A deletion's `Result`.
pub data Result : Type 0 where
  deleted not_found conflict failed : Result

abbrev pub is_failed : Result → Bool
is_failed failed = true
is_failed _ = false

-- `deletion`
pub record Deletion (E : Type 0) : Type 0 where
  pub time : Time
  pub kind : String
  pub namespace : String
  pub name : String
  pub uid : String
  pub resource_version : String
  pub owners : List GoneOwner
  pub result : Result
  pub error : Option E

-- The fields of `Collector` that sweeps read and write.
pub record Collector (E : Type 0) : Type 0 where
  pub namespace : String
  pub watched : Map GroupKind WatchedKind
  pub unresolved : Map Unresolved Bool
  pub deletions : List (Deletion E)

abbrev pub preconditions : Meta → Preconditions
preconditions meta = record { uid = meta.uid; resource_version = meta.resource_version }

-- The loop of `sweep` over what `collectible` could not resolve.
unfoldable pub note_unresolved : List Unresolved → Map Unresolved Bool → Map Unresolved Bool
note_unresolved [] known = known
note_unresolved (u ∷ us) known = note_unresolved us (insert u true known)

module _ (api : Api) where
  open api use {Error, is_not_found, is_conflict, has_ended, now, get_object, delete_object}

  -- ctx.Err() != nil
  abbrev pub asked : World Error → World Error
  asked w = ended (has_ended w) ∷ w

  -- `logFailure`, without the log.
  unfoldable pub log_failure : World Error → World Error
  log_failure w = if has_ended w then asked w else retry ∷ asked w

  abbrev pub owner_of : Got Error → Owner
  owner_of (found uid) = record { uid = uid; unreadable = false }
  owner_of (refused e) = record { uid = ""; unreadable = not (is_not_found e) }

  abbrev pub after_get : Got Error → World Error → World Error
  after_get (found uid) w = w
  after_get (refused e) w = if is_not_found e then w else log_failure w

  abbrev pub got :
      GroupVersionResource → OwnerKey → Got Error → Owners → World Error → Owners × World Error
  got resource key answer live w = (
    record live { resolved = insert key (owner_of answer) live.resolved },
    after_get answer (get resource key.name answer ∷ w),
  )

  -- One round of the loops of `liveOwners`.
  abbrev pub read_at : Resolution → Bool → OwnerKey → Owners → World Error → Owners × World Error
  read_at (resolvable kind) false key live w =
      got kind.resource key (get_object w kind.resource key.name) live w
  read_at (resolvable kind) true key live w = (live, w)
  read_at unwatched_kind already key live w = (live, w)
  read_at unserved_version already key live w = (live, w)

  -- `resultOf`
  unfoldable pub result_of : Option Error → Result
  result_of none = deleted
  result_of (some e) =
      if is_not_found e then not_found else if is_conflict e then conflict else failed

  -- `delete`
  unfoldable pub delete_object_of :
      Object → List GoneOwner → Collector Error → World Error → Collector Error × World Error
  unfolding log_failure result_of
  delete_object_of obj owners c w =
      let at = now (asked w) in
      let err = delete_object (asked w) obj.resource obj.meta.name (preconditions obj.meta) in
      let tried = delete obj.resource obj.meta.name (preconditions obj.meta) err ∷ asked w in
      let deletion : Deletion Error = record {
        time = at;
        kind = kind_name obj.kind;
        namespace = c.namespace;
        name = obj.meta.name;
        uid = obj.meta.uid;
        resource_version = obj.meta.resource_version;
        owners = owners;
        result = result_of err;
        error = err;
      } in
      if has_ended w then (c, asked w) else (
        record c { deletions = c.deletions ++ deletion ∷ [] },
        (if is_failed (result_of err) then log_failure tried else tried),
      )

module _ (lib : Libraries) (api : Api) where
  open api use {Error}

  unfoldable pub read_refs : List OwnerReference → Owners → World Error → Owners × World Error
  unfolding resolve key_of log_failure
  read_refs [] live w = (live, w)
  read_refs (ref ∷ refs) live w =
      let key = key_of lib ref in
      let (live', w') =
        read_at api (resolve lib live ref) (is_some (lookup key live.resolved)) key live w in
      read_refs refs live' w'

  unfoldable pub read_objects : List Object → Owners → World Error → Owners × World Error
  unfolding read_refs
  read_objects [] live w = (live, w)
  read_objects (obj ∷ objects) live w =
      let (live', w') = read_refs obj.meta.owner_references live w in read_objects objects live' w'

  -- `liveOwners`
  unfoldable pub live_owners :
      List Object → Map GroupKind WatchedKind → World Error → Owners × World Error
  unfolding read_objects
  live_owners objects watched w =
      read_objects objects (record { watched = watched; resolved = [] }) w

  -- One round of the loop of `sweep`.
  unfoldable pub sweep_one :
      Owners → Object → Collector Error → World Error → Collector Error × World Error
  unfolding collectible gone delete_object_of note_unresolved
  sweep_one live obj c w =
      let (collect, unresolved) = collectible lib live obj in
      let noted = record c { unresolved = note_unresolved unresolved c.unresolved } in
      if collect then delete_object_of api obj (gone lib live obj) noted w else (noted, w)

  unfoldable pub sweep_objects :
      Owners → List Object → Collector Error → World Error → Collector Error × World Error
  unfolding sweep_one
  sweep_objects live [] c w = (c, w)
  sweep_objects live (obj ∷ objects) c w =
      let (c', w') = sweep_one live obj c w in sweep_objects live objects c' w'

  -- `sweep`
  unfoldable pub sweep : List Object → Collector Error → World Error → Collector Error × World Error
  unfolding live_owners sweep_objects
  sweep objects c w =
      let (live, w') = live_owners objects c.watched w in sweep_objects live objects c w'
