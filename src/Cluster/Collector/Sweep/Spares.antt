-- ===== src/Cluster/Collector/Sweep/Spares.antt =====
-- What a sweep deletes, by the calls that it made.
use botbox.Base.{
  String, Bool, true, false, not, Option, none, some, List, [], ◌∷◌, ◌++◌, ◌≡◌, ◌≢◌, refl, ap, ◌∙◌,
  sym, if◌then◌else◌, In, here, there, All, All-In, arith, inl, inr, Bool-cases,
}
use botbox.Base.Map.{Map, lookup}
use botbox.Cluster.Collector.{
  GroupKind, GroupKind-eq, GroupVersionResource, OwnerReference, WatchedKind, Object, OwnerKey,
  OwnerKey-eq, Owner, Owners, GoneOwner, Libraries, key_of, collectible, gone,
}
use botbox.Cluster.Collector.Gone.{IsGone, WasReadGone, collectible-IsGone}
use botbox.Cluster.Collector.Sweep.{
  Got, found, refused, Preconditions, preconditions, Call, World, Api, ended, get, delete, retry,
  log_failure, owner_of, Collector, delete_object_of, sweep_one, sweep_objects, sweep, live_owners,
}
use botbox.Cluster.Collector.Sweep.Reads.{
  OfDelete, OnDelete, Grown, Grown_lem, WasAnswered, log_failure-Grown, live_owners-Known,
}

module _ (api : Api) where
  open api use {Error, is_not_found, has_ended, now, delete_object}

  -- A call of these read the owner of the reference, and found no object, or one with another uid.
  abbrev pub SawGone : Got Error → String → Type 0
  SawGone (found u) uid = u ≢ uid
  SawGone (refused e) uid = is_not_found e ≡ true

  module _ (lib : Libraries) where
    abbrev pub WasFoundGone :
        Map GroupKind WatchedKind → List (Call Error) → OwnerReference → Type 0
    WasFoundGone watched calls ref =
        (kind : WatchedKind) × (lookup (key_of lib ref).kind watched ≡ some kind)
        × (answer : Got Error) × In (get kind.resource ref.name answer) calls
        × SawGone answer ref.uid

    WasAnswered-gone :
        (watched : Map GroupKind WatchedKind) (calls : List (Call Error)) (ref : OwnerReference)
        (f : Owner)
        → WasAnswered (owner_of api) watched calls (key_of lib ref) f
        → WasReadGone (some f) ref.uid
        → WasFoundGone watched calls ref
    unfolding key_of
    WasAnswered-gone watched calls ref f (kind, at, answer, made, is) gone =
        (kind, at, answer, made, by answer is gone)
      where
        by :
            (a : Got Error)
            → owner_of api a ≡ f
            → (f.unreadable ≡ false) × (f.uid ≢ ref.uid)
            → SawGone a ref.uid
        by (found u) is (readable, other) = λ e. other (ap (λ o. o.uid) (sym is) ∙ e)
        by (refused e) is (readable, other) =
            let unread : not (is_not_found e) ≡ false = ap (λ o. o.unreadable) is ∙ readable in
            ground arith

    -- The delete is of an object that the sweep was given, as it was read, and each owner of it is gone by
    -- what `live` knows.
    abbrev OfCollected : List Object → Owners → OfDelete
    OfCollected objects live resource name conditions =
        (obj : Object) × In obj objects
        × (resource ≡ obj.resource)
        × (name ≡ obj.meta.name)
        × (conditions ≡ preconditions obj.meta)
        × (obj.meta.owner_references ≢ [])
        × All (IsGone lib live) obj.meta.owner_references

    module _ (objects : List Object) (live : Owners) (base : World Error) where
      abbrev Grows : List (Call Error) → World Error → Type 0
      Grows = Grown (OfCollected objects live) base

      logged-Grown :
          (b : Bool) (calls : List (Call Error))
          → All (OnDelete (OfCollected objects live)) calls
          → Grows calls (if b then log_failure api (calls ++ base) else calls ++ base)
      logged-Grown true calls h = log_failure-Grown api (OfCollected objects live) base calls h
      logged-Grown false calls h = Grown_lem (OfCollected objects live) base calls refl h

      earlier-Grown :
          (c d : Call Error) (calls : List (Call Error)) (w : World Error)
          → Grows (c ∷ d ∷ calls) w
          → Grows calls w
      earlier-Grown c d calls w (more, e, up, all) = (more, e, (λ k m. up k (there (there m))), all)

      delete_object_of-Grown :
          (obj : Object) (owners : List GoneOwner) (c : Collector Error) (calls : List (Call Error))
          → OfCollected objects live obj.resource obj.meta.name (preconditions obj.meta)
          → All (OnDelete (OfCollected objects live)) calls
          → Grows calls (delete_object_of api obj owners c (calls ++ base)).1
      unfolding delete_object_of
      delete_object_of-Grown obj owners c calls due h =
          elim (Bool-cases (has_ended (calls ++ base))) [
            | inl e ↦ rw e (ended true ∷ calls, refl, (λ k m. there m), (tt, h))
            | inr e ↦ rw e (
                earlier-Grown _ (ended false) calls _
                  (logged-Grown _ (_ ∷ _ ∷ calls) (due, (tt, h))))
          ]

      sweep_one-Grown :
          (obj : Object) (c : Collector Error) (calls : List (Call Error))
          → In obj objects
          → All (OnDelete (OfCollected objects live)) calls
          → Grows calls (sweep_one lib api live obj c (calls ++ base)).1
      unfolding sweep_one
      sweep_one-Grown obj c calls m h = elim (Bool-cases (collectible lib live obj).0) [
        | inl e ↦
            let (owned, all) = (collectible-IsGone lib live obj).0 e in
            rw e (
              delete_object_of-Grown obj (gone lib live obj) _ calls
                (obj, m, refl, refl, refl, owned, all) h)
        | inr e ↦ rw e (Grown_lem (OfCollected objects live) base calls refl h)
      ]

      sweep_objects-Grown :
          (left : List Object) (c : Collector Error) (calls : List (Call Error))
          → ((obj : Object) → In obj left → In obj objects)
          → All (OnDelete (OfCollected objects live)) calls
          → Grows calls (sweep_objects lib api live left c (calls ++ base)).1
      unfolding sweep_objects
      sweep_objects-Grown [] c calls m h = Grown_lem (OfCollected objects live) base calls refl h
      sweep_objects-Grown (obj ∷ left) c calls m h =
          let (more, e, up, all) = sweep_one-Grown obj c calls (m obj (here refl)) h in
          let (more', e', up', all') =
            sweep_objects-Grown left (sweep_one lib api live obj c (calls ++ base)).0 more
              (λ o n. m o (there n)) all in
          (
            more',
            ap
                  (λ w.
                    (sweep_objects lib api live left
                      (sweep_one lib api live obj c (calls ++ base)).0 w).1)
                  e
                ∙ e',
            (λ k n. up' k (up k n)),
            all',
          )

    none-OnDelete :
        (Q : OfDelete) (calls : List (Call Error))
        → All (OnDelete (λ r n p. ⊥)) calls
        → All (OnDelete Q) calls
    none-OnDelete Q [] h = tt
    none-OnDelete Q (ended b ∷ calls) h = (tt, none-OnDelete Q calls h.1)
    none-OnDelete Q (get r n a ∷ calls) h = (tt, none-OnDelete Q calls h.1)
    none-OnDelete Q (delete r n p e ∷ calls) h = absurd h.0
    none-OnDelete Q (retry ∷ calls) h = (tt, none-OnDelete Q calls h.1)

    All-found :
        (watched : Map GroupKind WatchedKind) (calls : List (Call Error)) (live : Owners)
        → ((key : OwnerKey) (f : Owner)
            → lookup key live.resolved ≡ some f
            → WasAnswered (owner_of api) watched calls key f)
        → (refs : List OwnerReference) → All (IsGone lib live) refs
        → All (WasFoundGone watched calls) refs
    All-found watched calls live seen [] h = tt
    All-found watched calls live seen (ref ∷ refs) h = (
      by (lookup (key_of lib ref) live.resolved) refl h.0.1,
      All-found watched calls live seen refs h.1,
    )
      where
        by :
            (o : Option Owner)
            → lookup (key_of lib ref) live.resolved ≡ o
            → WasReadGone o ref.uid
            → WasFoundGone watched calls ref
        by none e gone = absurd gone
        by (some f) e gone = WasAnswered-gone watched calls ref f (seen _ f e) gone

    -- A delete that the sweep sent, by the calls of that sweep.
    abbrev pub WasDue : List Object → Map GroupKind WatchedKind → List (Call Error) → OfDelete
    WasDue objects watched calls resource name conditions =
        (obj : Object) × In obj objects
        × (resource ≡ obj.resource)
        × (name ≡ obj.meta.name)
        × (conditions ≡ preconditions obj.meta)
        × (obj.meta.owner_references ≢ [])
        × All (WasFoundGone watched calls) obj.meta.owner_references

    -- Each delete of a sweep names an object that the sweep was given, by the uid and the resource version
    -- it was read at. The object names an owner, and for each owner that it names, this sweep read a
    -- watched kind at that name and was answered that there is none, or one of another uid. A read that
    -- failed otherwise, or an owner of a kind that is not watched, lets no delete through.
    pub sweep-WasDue :
        (objects : List Object) (c : Collector Error) (base : World Error)
        → (calls : List (Call Error)) × ((sweep lib api objects c base).1 ≡ calls ++ base)
          × ((resource : GroupVersionResource) (name : String) (conditions : Preconditions)
                (answer : Option Error)
              → In (delete resource name conditions answer) calls
              → WasDue objects c.watched calls resource name conditions)
    unfolding sweep
    sweep-WasDue objects c base =
        let (known, e, up, all, reads, kinds) =
          live_owners-Known api lib (λ r n p. ⊥) base objects c.watched in
        let live = (live_owners lib api objects c.watched base).0 in
        let (calls, e', up', all') =
          sweep_objects-Grown objects live base objects c known (λ o m. m)
            (none-OnDelete (OfCollected objects live) known all) in
        let seen : (key : OwnerKey) (f : Owner)
            → lookup key live.resolved ≡ some f
            → WasAnswered (owner_of api) c.watched calls key f =
          λ key f was.
            let (kind, at, answer, made, is) = reads key f was in
            (kind, ap (lookup key.kind) (sym kinds) ∙ at, answer, up' _ made, is) in
        (
          calls,
          ap (λ w. (sweep_objects lib api live objects c w).1) e ∙ e',
          (λ r n p a m.
              let (obj, listed, resource, name, conditions, owned, gone) =
                All-In (OnDelete (OfCollected objects live)) calls all' m in
              (
                obj,
                listed,
                resource,
                name,
                conditions,
                owned,
                All-found c.watched calls live seen obj.meta.owner_references gone,
              )),
        )
