-- ===== src/Cluster/Collector/Sweep/Tries.antt =====
-- The deletes that a sweep sends, and what is recorded of each.
use botbox.Base.{
  String, Option, none, some, List, [], ◌∷◌, ◌++◌, ◌==◌, map, filter_by, if◌then◌else◌, String-eq,
}
use botbox.Base.Map.{lookup}
use botbox.Observe.{kind_name}
use botbox.Cluster.Collector.{
  GroupVersionResource, Object, OwnerKey-eq, Owner, Owners, Reason, not_found, another_uid,
  GoneOwner, Libraries, named, group_kind, collectible,
}
use botbox.Cluster.Collector.Sweep.{
  Preconditions, ended, get, delete, retry, World, Api, Result, deleted, conflict, failed, Deletion,
}

-- A delete that was sent: the resource, the name, the preconditions, and the answer.
abbrev pub Sent : Type 0 → Type 0
Sent E = GroupVersionResource × String × Preconditions × Option E

-- The deletes among the calls, the first that was sent first.
abbrev pub sent : {E : Type 0} → World E → List (Sent E)
sent [] = []
sent (ended b ∷ w) = sent w
sent (get r n a ∷ w) = sent w
sent (delete r n p a ∷ w) = sent w ++ (r, n, p, a) ∷ []
sent (retry ∷ w) = sent w

-- Why an owner counts as gone, by what was read of it.
abbrev pub told : Option Owner → Reason
told none = not_found
told (some found) = if found.uid == "" then not_found else another_uid found.uid

abbrev pub told_of : Libraries → Owners → Object → List GoneOwner
told_of lib live obj =
    map
      (λ ref. record {
        reference = ref;
        reason =
            told (
              lookup (record { kind = group_kind (named lib ref); name = ref.name }) live.resolved);
      })
      obj.meta.owner_references

-- The objects that are to go by what is known of the owners.
abbrev pub to_go : Libraries → Owners → List Object → List Object
to_go lib live objects = filter_by (λ obj. (collectible lib live obj).0) objects

module _ (api : Api) where
  open api use {Error, is_not_found, is_conflict, has_ended, delete_object}

  abbrev pub outcome : Option Error → Result
  outcome none = deleted
  outcome (some e) =
      if is_not_found e then Result.not_found else if is_conflict e then conflict else failed

  -- What a record says, less the instant.
  abbrev pub Told : Type 0
  Told = String × String × String × String × String × List GoneOwner × Result × Option Error

  abbrev pub told_by : Deletion Error → Told
  told_by d = (d.kind, d.namespace, d.name, d.uid, d.resource_version, d.owners, d.result, d.error)

  -- An object that is to go, and the calls made so far when its delete is sent.
  abbrev pub Try : Type 0
  Try = Object × World Error

  abbrev pub as_read : Object → Preconditions
  as_read obj = record { uid = obj.meta.uid; resource_version = obj.meta.resource_version }

  -- The delete names the object's resource and name, on condition of the uid and the resource version it
  -- was read at, and has the answer of the API server.
  abbrev pub as_sent : Try → Sent Error
  as_sent (obj, w) = (
    obj.resource,
    obj.meta.name,
    as_read obj,
    delete_object w obj.resource obj.meta.name (as_read obj),
  )

  abbrev pub as_told : Libraries → String → Owners → Try → Told
  as_told lib namespace live (obj, w) =
      let answer = delete_object w obj.resource obj.meta.name (as_read obj) in
      (
        kind_name obj.kind,
        namespace,
        obj.meta.name,
        obj.meta.uid,
        obj.meta.resource_version,
        told_of lib live obj,
        outcome answer,
        answer,
      )
