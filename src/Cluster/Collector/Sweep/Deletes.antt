-- ===== src/Cluster/Collector/Sweep/Deletes.antt =====
-- What a sweep asks the API server to delete, and what it records of that.
use botbox.Base.{
  String, Bool, true, false, not, Option, none, some, List, [], ◌∷◌, ◌++◌, ◌==◌, ◌≡◌, refl, sym, ap,
  ◌∙◌, map, append-nil, append_assoc, map-append, map-append_one, Bool-cases, inl, inr,
  if◌then◌else◌, if-cases, All, fun_ext, String-eq,
}
use botbox.Base.Map.{lookup}
use botbox.Cluster.Collector.{
  Object, OwnerKey-eq, Owner, Owners, Reason, not_found, another_uid, GoneOwner, Libraries, reason,
  key_of, collectible, gone,
}
use botbox.Cluster.Collector.Sweep.{
  ended, get, delete, retry, World, Api, is_failed, Collector, log_failure, result_of,
  delete_object_of, sweep_one, sweep_objects, sweep, live_owners,
}
use botbox.Cluster.Collector.Sweep.Reads.{OnDelete, live_owners-Known}
use botbox.Cluster.Collector.Sweep.Tries.{
  sent, told, told_of, to_go, outcome, told_by, Try, as_read, as_sent, as_told,
}

module _ (api : Api) where
  open api use {Error, is_not_found, is_conflict, has_ended, delete_object}

  module _ (lib : Libraries) (runs : (w : World Error) → has_ended w ≡ false) where
    -- The calls from w to w', and the records from c to c', are of these tries.
    record IsTried (live : Owners) (tries : List (Try api)) (c c' : Collector Error)
        (w w' : World Error) : Type 0 where
      pub sends : sent w' ≡ sent w ++ map (as_sent api) tries
      pub tells :
          map (told_by api) c'.deletions
          ≡ map (told_by api) c.deletions ++ map (as_told api lib c.namespace live) tries
      pub same_namespace : c'.namespace ≡ c.namespace

    result_of-outcome : (e : Option Error) → result_of api e ≡ outcome api e
    unfolding result_of
    result_of-outcome none = refl
    result_of-outcome (some e) = refl

    reason-told : (o : Option Owner) → reason o ≡ told o
    reason-told none = refl
    reason-told (some found) = by (found.uid == "")
      where
        by :
            (b : Bool)
            → (if not b then another_uid found.uid else not_found)
              ≡ (if b then not_found else another_uid found.uid)
        by true = refl
        by false = refl

    gone-told : (live : Owners) (obj : Object) → gone lib live obj ≡ told_of lib live obj
    unfolding gone key_of
    gone-told live obj =
        ap (λ f. map f obj.meta.owner_references)
          (fun_ext (λ ref.
            ap {B = GoneOwner} (λ (r : Reason). record { reference = ref; reason = r })
              (reason-told (lookup (key_of lib ref) live.resolved))))

    log_failure-sent :
        (b : Bool) (w : World Error) → sent (if b then log_failure api w else w) ≡ sent w
    unfolding log_failure
    log_failure-sent true w =
        if-cases (λ v. sent v ≡ sent w) (has_ended w) _ _ (λ e. refl) (λ e. refl)
    log_failure-sent false w = refl

    delete-IsTried :
        (live : Owners) (obj : Object) (c : Collector Error) (w : World Error)
        → IsTried live
            ((obj, ended false ∷ w) ∷ [])
            c
            (delete_object_of api obj (gone lib live obj) c w).0
            w
            (delete_object_of api obj (gone lib live obj) c w).1
    unfolding delete_object_of
    delete-IsTried live obj c w =
        let answer = delete_object (ended false ∷ w) obj.resource obj.meta.name (as_read api obj) in
        let tried : World Error =
          delete obj.resource obj.meta.name (as_read api obj) answer ∷ ended false ∷ w in
        rw (runs w) (record {
          sends = log_failure-sent (is_failed (result_of api answer)) tried;
          tells =
              map-append_one (told_by api) c.deletions _
              ∙ rw (gone-told live obj, result_of-outcome answer) refl;
          same_namespace = refl;
        })

    -- The tries of one round.
    sweep_one-IsTried :
        (live : Owners) (obj : Object) (rest : List Object) (c : Collector Error) (w : World Error)
        → (tries : List (Try api)) × ((left : List (Try api))
            → map (λ t. t.0) left ≡ to_go lib live rest
            → map (λ t. t.0) (tries ++ left) ≡ to_go lib live (obj ∷ rest))
          × IsTried live tries c
              (sweep_one lib api live obj c w).0
              w
              (sweep_one lib api live obj c w).1
    unfolding sweep_one
    sweep_one-IsTried live obj rest c w = elim (Bool-cases (collectible lib live obj).0) [
      | inl e ↦ rw e (
        (obj, ended false ∷ w) ∷ [],
        (λ left h. ap (λ l. obj ∷ l) h),
        (let t = delete-IsTried live obj (record c { unresolved = _ }) w in
            record { sends = t.sends; tells = t.tells; same_namespace = t.same_namespace }),
      )
      | inr e ↦ rw e (
        [],
        (λ left h. h),
        record { sends = sym (append-nil _); tells = sym (append-nil _); same_namespace = refl },
      )
    ]

    -- Some tries after others.
    then_IsTried :
        {live : Owners} {c c' c'' : Collector Error} {w w' w'' : World Error}
        (first later : List (Try api))
        → IsTried live first c c' w w'
        → IsTried live later c' c'' w' w''
        → IsTried live (first ++ later) c c'' w w''
    then_IsTried {live = live} {c = c} {c' = c'} {w = w} first later now next = record {
      sends =
          next.sends
          ∙ ap (λ l. l ++ map (as_sent api) later) now.sends
          ∙ append_assoc (sent w) (map (as_sent api) first) (map (as_sent api) later)
          ∙ ap (λ l. sent w ++ l) (sym (map-append (as_sent api) first later));
      tells =
          let told = as_told api lib c.namespace live in
          next.tells
          ∙ ap
              (λ (n : String). map (told_by api) c'.deletions ++ map (as_told api lib n live) later)
              now.same_namespace
          ∙ ap (λ l. l ++ map told later) now.tells
          ∙ append_assoc (map (told_by api) c.deletions) (map told first) (map told later)
          ∙ ap (λ l. map (told_by api) c.deletions ++ l) (sym (map-append told first later));
      same_namespace = next.same_namespace ∙ now.same_namespace;
    }

    none-sent :
        (calls w : World Error) → All (OnDelete (λ r n p. ⊥)) calls → sent (calls ++ w) ≡ sent w
    none-sent [] w h = refl
    none-sent (ended b ∷ calls) w h = none-sent calls w h.1
    none-sent (get r n a ∷ calls) w h = none-sent calls w h.1
    none-sent (delete r n p a ∷ calls) w h = absurd h.0
    none-sent (retry ∷ calls) w h = none-sent calls w h.1

    sweep_objects-IsTried :
        (live : Owners) (objects : List Object) (c : Collector Error) (w : World Error)
        → (tries : List (Try api)) × (map (λ t. t.0) tries ≡ to_go lib live objects)
          × IsTried live tries c
              (sweep_objects lib api live objects c w).0
              w
              (sweep_objects lib api live objects c w).1
    unfolding sweep_objects
    sweep_objects-IsTried live [] c w = (
      [],
      refl,
      record { sends = sym (append-nil _); tells = sym (append-nil _); same_namespace = refl },
    )
    sweep_objects-IsTried live (obj ∷ objects) c w =
        let (now, extends, first) = sweep_one-IsTried live obj objects c w in
        let (c', w') = sweep_one lib api live obj c w in
        let (left, are, later) = sweep_objects-IsTried live objects c' w' in
        (now ++ left, extends left are, then_IsTried now left first later)

    -- While the context lasts, a sweep sends a delete for each object that collectible says is to go by what
    -- was read at its start, for no other and once for each, in the order of the objects. Each delete names
    -- the object's resource and its name, on condition of the uid and the resource version it was read at.
    -- What the API server answers is the error of a record that is put after those of earlier sweeps, and
    -- decides its result; the record has the object as it was read, and why each of its owners counts as
    -- gone.
    pub sweep-deletes :
        (objects : List Object) (c : Collector Error) (w : World Error)
        → let live = (live_owners lib api objects c.watched w).0 in
          let end = sweep lib api objects c w in
          (tries : List (Try api)) × (map (λ t. t.0) tries ≡ to_go lib live objects)
          × (sent end.1 ≡ sent w ++ map (as_sent api) tries)
          × (map (told_by api) end.0.deletions
              ≡ map (told_by api) c.deletions ++ map (as_told api lib c.namespace live) tries)
    unfolding sweep
    sweep-deletes objects c w =
        let (live, w') = live_owners lib api objects c.watched w in
        let (calls, e, up, all, reads, kinds) =
          live_owners-Known api lib (λ r n p. ⊥) w objects c.watched in
        let (tries, are, ends) = sweep_objects-IsTried live objects c w' in
        let quiet : sent w' ≡ sent w = ap sent e ∙ none-sent calls w all in
        (tries, are, ends.sends ∙ ap (λ l. l ++ map (as_sent api) tries) quiet, ends.tells)
