-- ===== src/Invariant/Attribution.antt =====
-- internal/invariant/attribution.go: which CR an object belongs to.
use botbox.Base.{
  String, Bool, true, false, not, ◌&&◌, ◌||◌, List, [], ◌∷◌, map, ◌==◌, String-eq, any, filter_by,
  contains, is_some,
}
use botbox.Observe.{GroupVersionKind, GroupVersionKind-eq, OwnerReference, Version}
use botbox.Invariant.{Input}
use botbox.Invariant.State.{State}

abbrev pub is_empty : List String → Bool
is_empty [] = true
is_empty (x ∷ xs) = false

-- `crs`
unfoldable pub crs : State → GroupVersionKind → List Version
crs s gvk = filter_by (λ v. v.key.gvk == gvk) s.live

-- `holds`
unfoldable pub holds : State → String → Bool
holds s uid = any s.live (λ v. v.uid == uid)

-- `group_of` is schema.FromAPIVersionAndKind's: the group of an apiVersion.
module _ (group_of : String → String) where
  -- The reference is to an object of the primary kind, whatever its version.
  abbrev pub names_primary : GroupVersionKind → OwnerReference → Bool
  names_primary primary ref = group_of ref.api_version == primary.group && ref.kind == primary.kind

  -- `namedCRs`
  unfoldable pub named_crs : Input → Version → List String
  named_crs inp v =
      map (λ ref. ref.uid) (filter_by (names_primary inp.target.primary) v.owner_references)

  -- `objectsOf`
  unfoldable pub objects_of : Input → String → List Version → List Version
  unfolding named_crs
  objects_of inp cr objects =
      filter_by (λ v. not (not (is_empty (named_crs inp v)) && not (contains (named_crs inp v) cr)))
        objects

  -- `askedFor`
  unfoldable pub asked_for : Input → Version → State → Bool
  unfolding named_crs crs
  asked_for inp v s = any (crs s inp.target.primary) (λ cr.
      not (is_some cr.deletion_timestamp)
      && (is_empty (named_crs inp v) || contains (named_crs inp v) cr.uid))
