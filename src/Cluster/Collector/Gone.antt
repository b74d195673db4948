-- ===== src/Cluster/Collector/Gone.antt =====
-- Which objects `collectible` has deleted.
use text.Mathlib.TextEquality.{eq_iff}
use botbox.Base.{
  has_any, String, Bool, true, false, Option, none, some, List, [], ◌∷◌, ◌≡◌, ◌≢◌, ◌↔◌, String-eq,
  if◌then◌else◌, All, arith,
}
use botbox.Base.Map.{lookup}
use botbox.Cluster.Collector.{
  OwnerReference, Unresolved, Object, OwnerKey-eq, Owner, Owners, Resolution, resolvable,
  unwatched_kind, unserved_version, Libraries, key_of, resolve, is_live, judge, collectible_from,
  collectible,
}

-- The owner was read, and is not the one that the reference names.
abbrev pub WasReadGone : Option Owner → String → Type 0
WasReadGone none uid = ⊥
WasReadGone (some found) uid = (found.unreadable ≡ false) × (found.uid ≢ uid)

abbrev pub IsResolved : Resolution → Type 0
IsResolved (resolvable kind) = Unit
IsResolved unwatched_kind = ⊥
IsResolved unserved_version = ⊥

-- The reference names a kind that is watched, at a version that is served, and its owner was read gone.
abbrev pub IsGone : Libraries → Owners → OwnerReference → Type 0
IsGone lib o ref =
    IsResolved (resolve lib o ref) × WasReadGone (lookup (key_of lib ref) o.resolved) ref.uid

module _ (lib : Libraries) (o : Owners) (obj : Object) where
  judge-IsGone :
      (how : Resolution) (ref : OwnerReference) (b : Bool) (us : List Unresolved)
      → ((judge lib how o obj ref (b, us)).0 ≡ true)
        ↔ ((b ≡ true) × (IsResolved how × WasReadGone (lookup (key_of lib ref) o.resolved) ref.uid))
  judge-IsGone (resolvable kind) ref b us = by (lookup (key_of lib ref) o.resolved) b
    where
      by :
          (read : Option Owner) (c : Bool)
          → ((if is_live read ref.uid then false else c) ≡ true)
            ↔ ((c ≡ true) × (Unit {0} × WasReadGone read ref.uid))
      by none c = (λ h. absurd (ground arith), λ h. absurd h.1.1)
      by (some found) c = ground (arith, eq_iff found.uid ref.uid)
  judge-IsGone unwatched_kind ref b us = (λ h. absurd (ground arith), λ h. absurd h.1.0)
  judge-IsGone unserved_version ref b us = (λ h. absurd (ground arith), λ h. absurd h.1.0)

  collectible_from-IsGone :
      (refs : List OwnerReference) (b : Bool) (us : List Unresolved)
      → ((collectible_from lib refs o obj (b, us)).0 ≡ true)
        ↔ ((b ≡ true) × All (IsGone lib o) refs)
  unfolding collectible_from
  collectible_from-IsGone [] b us = (λ h. (h, tt), λ h. h.0)
  collectible_from-IsGone (ref ∷ refs) b us =
      let now = judge lib (resolve lib o ref) o obj ref (b, us) in
      let first = judge-IsGone (resolve lib o ref) ref b us in
      let rest = collectible_from-IsGone refs now.0 now.1 in
      (
        (λ h. let (c, more) = rest.0 h in ((first.0 c).0, ((first.0 c).1, more))),
        (λ h. rest.1 (first.1 (h.0, h.1.0), h.1.1)),
      )

  -- An object is collected exactly if it names an owner and each owner that it names is of a watched kind,
  -- at a version that the API server serves, and was read: missing, or with another uid than the
  -- reference's. An owner that could not be read or resolved keeps it.
  pub collectible-IsGone :
      ((collectible lib o obj).0 ≡ true)
      ↔ ((obj.meta.owner_references ≢ []) × All (IsGone lib o) obj.meta.owner_references)
  unfolding collectible
  collectible-IsGone =
      let by =
        collectible_from-IsGone obj.meta.owner_references (has_any obj.meta.owner_references) [] in
      (
        (λ h. ((λ e. absurd (named obj.meta.owner_references e (by.0 h).0)), (by.0 h).1)),
        (λ h. by.1 (owned obj.meta.owner_references h.0, h.1)),
      )
    where
      named : (refs : List OwnerReference) → refs ≡ [] → has_any refs ≡ true → ⊥
      named [] e h = ground arith
      named (r ∷ rs) e h = ground arith

      owned : (refs : List OwnerReference) → refs ≢ [] → has_any refs ≡ true
      owned [] h = ground arith
      owned (r ∷ rs) h = ground arith
