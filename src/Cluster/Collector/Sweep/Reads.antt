-- ===== src/Cluster/Collector/Sweep/Reads.antt =====
-- What `liveOwners` knows of the owners, and the calls that it made to know it.
use botbox.Base.{
  String, Bool, true, false, Option, none, some, List, [], ◌∷◌, ◌++◌, ◌≡◌, refl, ap, ◌∙◌, sym,
  subst, if-cases, is_some, In, here, there, All, arith, ◌⊎◌, inl, inr,
}
use botbox.Base.Map.{Map, lookup, insert-cases}
use botbox.Cluster.Collector.{
  GroupKind, GroupKind-eq, GroupVersionResource, OwnerReference, WatchedKind, Object, OwnerKey,
  OwnerKey-eq, Owner, Owners, Resolution, resolvable, unwatched_kind, unserved_version, Libraries,
  key_of, resolve, named, group_kind, at_watched,
}
use botbox.Cluster.Collector.Sweep.{
  Got, found, refused, Preconditions, Call, World, Api, ended, get, delete, retry, log_failure,
  owner_of, after_get, got, read_at, read_refs, read_objects, live_owners, asked,
}

-- What is said of a delete that was sent.
abbrev pub OfDelete : Type 1
OfDelete = GroupVersionResource → String → Preconditions → Type 0

module _ {E : Type 0} (Q : OfDelete) where
  -- What `Q` says of a delete; any other call is none.
  abbrev pub OnDelete : Call E → Type 0
  OnDelete (ended b) = Unit
  OnDelete (get r n a) = Unit
  OnDelete (delete r n p e) = Q r n p
  OnDelete retry = Unit

  -- The world has these calls and more since `base`, and `Q` holds of each delete among them.
  abbrev pub Grown : World E → List (Call E) → World E → Type 0
  Grown base calls w =
      (more : List (Call E)) × (w ≡ more ++ base)
      × ((c : Call E) → In c calls → In c more)
      × All OnDelete more

  pub Grown_lem :
      (base calls : World E) {w : World E}
      → w ≡ calls ++ base
      → All OnDelete calls
      → Grown base calls w
  Grown_lem base calls e h = (calls, e, (λ c m. m), h)

-- A call that was made answered so for the owner of this key.
abbrev pub WasAnswered :
    {E : Type 0}
    → (Got E → Owner)
    → Map GroupKind WatchedKind
    → List (Call E)
    → OwnerKey
    → Owner
    → Type 0
WasAnswered {E} owner_of watched calls key f =
    (kind : WatchedKind) × (lookup key.kind watched ≡ some kind)
    × (answer : Got E) × In (get kind.resource key.name answer) calls
    × (owner_of answer ≡ f)

module _ (api : Api) where
  open api use {Error, has_ended, is_not_found, get_object}

  module _ (Q : OfDelete) (base : World Error) where
    pub asked-Grown :
        (calls : List (Call Error))
        → All (OnDelete Q) calls
        → Grown Q base calls (asked api (calls ++ base))
    asked-Grown calls h = (_ ∷ calls, refl, (λ c m. there m), (tt, h))

    pub log_failure-Grown :
        (calls : List (Call Error))
        → All (OnDelete Q) calls
        → Grown Q base calls (log_failure api (calls ++ base))
    unfolding log_failure
    log_failure-Grown calls h =
        if-cases (Grown Q base calls) (has_ended (calls ++ base)) (asked api (calls ++ base))
          (retry ∷ asked api (calls ++ base)) (λ c. asked-Grown calls h)
          (λ c. (retry ∷ _ ∷ calls, refl, (λ c m. there (there m)), (tt, (tt, h))))

    after_get-Grown :
        (answer : Got Error) (calls : List (Call Error))
        → All (OnDelete Q) calls
        → Grown Q base calls (after_get api answer (calls ++ base))
    after_get-Grown (found uid) calls h = Grown_lem Q base calls refl h
    after_get-Grown (refused e) calls h =
        if-cases (Grown Q base calls) (is_not_found e) (calls ++ base)
          (log_failure api (calls ++ base)) (λ c. Grown_lem Q base calls refl h)
          (λ c. log_failure-Grown calls h)

    -- What is known of an owner was answered.
    abbrev pub Reads : List (Call Error) → Owners → Type 0
    Reads calls live =
        (key : OwnerKey) (f : Owner)
        → lookup key live.resolved ≡ some f
        → WasAnswered (owner_of api) live.watched calls key f

    -- What the reads of a sweep come to: the calls, what is known by them, and the kinds as they were.
    abbrev pub Known : List (Call Error) → Owners → Owners × World Error → Type 0
    Known calls live read =
        (more : List (Call Error)) × (read.1 ≡ more ++ base)
        × ((c : Call Error) → In c calls → In c more)
        × All (OnDelete Q) more
        × Reads more read.0
        × (read.0.watched ≡ live.watched)

    Reads-grow :
        (calls more : List (Call Error)) (live : Owners)
        → ((c : Call Error) → In c calls → In c more)
        → Reads calls live
        → Reads more live
    Reads-grow calls more live up h key f e =
        let (kind, at, answer, made, is) = h key f e in (kind, at, answer, up _ made, is)

    got-Known :
        (kind : WatchedKind) (key : OwnerKey) (answer : Got Error) (live : Owners)
        (calls : List (Call Error))
        → lookup key.kind live.watched ≡ some kind
        → All (OnDelete Q) calls
        → Reads calls live
        → Known calls live (got api kind.resource key answer live (calls ++ base))
    got-Known kind key answer live calls at h reads =
        let (more, e, up, all) =
          after_get-Grown answer (get kind.resource key.name answer ∷ calls) (tt, h) in
        (
          more,
          e,
          (λ c m. up c (there m)),
          all,
          (λ k f known.
              by k f more up (insert-cases key k (owner_of api answer) f live.resolved known)),
          refl,
        )
      where
        by :
            (k : OwnerKey) (f : Owner) (more : List (Call Error))
            → ((c : Call Error) → In c (get kind.resource key.name answer ∷ calls) → In c more)
            → ((key ≡ k) × (owner_of api answer ≡ f)) ⊎ (lookup k live.resolved ≡ some f)
            → WasAnswered (owner_of api) live.watched more k f
        by k f more up (inl (same, is)) =
            subst (λ j. WasAnswered (owner_of api) live.watched more j f) same
              (kind, at, answer, up _ (here refl), is)
        by k f more up (inr old) =
            let (kind', at', answer', made, is') = reads k f old in
            (kind', at', answer', up _ (there made), is')

    same-Known :
        (live : Owners) (calls : List (Call Error))
        → All (OnDelete Q) calls
        → Reads calls live
        → Known calls live (live, calls ++ base)
    same-Known live calls h reads = (calls, refl, (λ c m. m), h, reads, refl)

    read_at-Known :
        (how : Resolution) (already : Bool) (key : OwnerKey) (live : Owners)
        (calls : List (Call Error))
        → ((kind : WatchedKind) → how ≡ resolvable kind → lookup key.kind live.watched ≡ some kind)
        → All (OnDelete Q) calls
        → Reads calls live
        → Known calls live (read_at api how already key live (calls ++ base))
    read_at-Known (resolvable kind) false key live calls at h reads =
        got-Known kind key (get_object (calls ++ base) kind.resource key.name) live calls
          (at kind refl) h reads
    read_at-Known (resolvable kind) true key live calls at h reads = same-Known live calls h reads
    read_at-Known unwatched_kind b key live calls at h reads = same-Known live calls h reads
    read_at-Known unserved_version b key live calls at h reads = same-Known live calls h reads

    -- One reading after another.
    Known-then :
        (calls : List (Call Error)) (live : Owners) (first : Owners × World Error)
        (rest : Owners → World Error → Owners × World Error)
        → ((more : List (Call Error)) (known : Owners)
            → All (OnDelete Q) more
            → Reads more known
            → Known more known (rest known (more ++ base)))
        → Known calls live first
        → Known calls live (rest first.0 first.1)
    Known-then calls live (known, w) rest step (more, e, up, all, reads, kinds) =
        let (more', e', up', all', reads', kinds') = step more known all reads in
        (
          more',
          ap (λ v. (rest known v).1) e ∙ e',
          (λ c m. up' c (up c m)),
          all',
          subst (λ v. Reads more' (rest known v).0) (sym e) reads',
          ap (λ v. (rest known v).0.watched) e ∙ kinds' ∙ kinds,
        )

  module _ (lib : Libraries) (Q : OfDelete) (base : World Error) where
    resolve-watched :
        (live : Owners) (ref : OwnerReference) (kind : WatchedKind)
        → resolve lib live ref ≡ resolvable kind
        → lookup (key_of lib ref).kind live.watched ≡ some kind
    unfolding resolve key_of
    resolve-watched live ref kind h = by (lookup (group_kind (named lib ref)) live.watched) _ h
      where
        by : (o : Option WatchedKind) (b : Bool) → at_watched o b ≡ resolvable kind → o ≡ some kind
        by none b h = absurd (ground arith)
        by (some k) true h = ground arith
        by (some k) false h = absurd (ground arith)

    pub read_refs-Known :
        (refs : List OwnerReference) (live : Owners) (calls : List (Call Error))
        → All (OnDelete Q) calls
        → Reads Q base calls live
        → Known Q base calls live (read_refs lib api refs live (calls ++ base))
    unfolding read_refs
    read_refs-Known [] live calls h reads = same-Known Q base live calls h reads
    read_refs-Known (ref ∷ refs) live calls h reads =
        let key = key_of lib ref in
        Known-then Q base calls live
          (read_at api (resolve lib live ref) (is_some (lookup key live.resolved)) key live
            (calls ++ base))
          (read_refs lib api refs) (λ more known. read_refs-Known refs known more)
          (read_at-Known Q base (resolve lib live ref) (is_some (lookup key live.resolved)) key live
            calls (resolve-watched live ref) h reads)

    pub read_objects-Known :
        (objects : List Object) (live : Owners) (calls : List (Call Error))
        → All (OnDelete Q) calls
        → Reads Q base calls live
        → Known Q base calls live (read_objects lib api objects live (calls ++ base))
    unfolding read_objects
    read_objects-Known [] live calls h reads = same-Known Q base live calls h reads
    read_objects-Known (obj ∷ objects) live calls h reads =
        Known-then Q base calls live
          (read_refs lib api obj.meta.owner_references live (calls ++ base))
          (read_objects lib api objects) (λ more known. read_objects-Known objects known more)
          (read_refs-Known obj.meta.owner_references live calls h reads)

    pub live_owners-Known :
        (objects : List Object) (watched : Map GroupKind WatchedKind)
        → Known Q base []
            (record { watched = watched; resolved = [] })
            (live_owners lib api objects watched base)
    unfolding live_owners lookup
    live_owners-Known objects watched =
        read_objects-Known objects (record { watched = watched; resolved = [] }) [] tt
          (λ key f known. absurd (ground arith))
