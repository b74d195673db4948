-- ===== src/Observe/Store/Managed.antt =====
-- What `Managed` serves, by the writes of the store.
use botbox.Base.{
  Eq, String, Bool, true, false, not, ◌||◌, Option, none, some, List, [], ◌∷◌, ◌==◌, ◌≡◌, ◌↔◌, refl,
  sym, ap, ◌∙◌, if-cases, if◌then◌else◌, contains, In, All-In, any→In, In→any, arith, subst,
}
use botbox.Observe.{GroupVersionKind-eq, Key, Key-eq, Version}
use botbox.Observe.Store.{
  Store, Options, new_store, latest, repeats, record_version, exclude, selected, managed,
  version_is_managed,
}
use botbox.Observe.Store.Index.{
  Write, recorded, excluded, write, write_all, write_all-IsIndexed, IsIndexed-new,
}
use botbox.Observe.Store.Live.{live-IsLive, IsLive-In}

record_version-rest :
    (v : Version) (s : Store)
    → ((record_version v s).opts ≡ s.opts) × ((record_version v s).excluded ≡ s.excluded)
unfolding record_version
record_version-rest v s =
    if-cases (λ (t : Store). (t.opts ≡ s.opts) × (t.excluded ≡ s.excluded))
      (repeats v (latest s v.key)) _ _ (λ e. (refl, refl)) (λ e. (refl, refl))

write_all-opts : (ws : List Write) (s : Store) → (write_all ws s).opts ≡ s.opts
unfolding write_all write exclude
write_all-opts [] s = refl
write_all-opts (recorded v ∷ ws) s =
    write_all-opts ws (record_version v s) ∙ (record_version-rest v s).0
write_all-opts (excluded gvk name ∷ ws) s = write_all-opts ws (exclude gvk name s)

-- The keys of the objects that the writes exclude, of the namespace of the run.
abbrev pub excluded_by : String → List Write → List Key
excluded_by namespace [] = []
excluded_by namespace (recorded v ∷ ws) = excluded_by namespace ws
excluded_by namespace (excluded gvk name ∷ ws) =
    record { gvk = gvk; namespace = namespace; name = name } ∷ excluded_by namespace ws

excludes :
    (ws : List Write) (s : Store) (key : Key)
    → contains (write_all ws s).excluded key
      ≡ (contains (excluded_by s.opts.namespace ws) key || contains s.excluded key)
unfolding write_all write exclude
excludes [] s key = refl
excludes (recorded v ∷ ws) s key =
    let (opts, same) = record_version-rest v s in
    excludes ws (record_version v s) key
    ∙ ap
        (λ (o : Options).
          contains (excluded_by o.namespace ws) key || contains (record_version v s).excluded key)
        opts
    ∙ ap (λ ks. contains (excluded_by s.opts.namespace ws) key || contains ks key) same
excludes (excluded gvk name ∷ ws) s key = ground (arith, excludes ws (exclude gvk name s) key)

-- The labels match the selector, if there is one.
abbrev pub IsSelected : Option (List (String × String) → Bool) → List (String × String) → Type 0
IsSelected none labels = Unit
IsSelected (some matches) labels = matches labels ≡ true

-- After these writes, the version is the latest of its key and not of a deletion; its kind is one the
-- target manages, no write excluded its object, and its labels are selected.
pub record IsManaged (opts : Options) (ws : List Write) (v : Version) : Type 0 where
  pub is_latest : latest (write_all ws (new_store opts)) v.key ≡ some v
  pub there_still : v.deleted ≡ false
  pub of_kind : In v.key.gvk opts.manages
  pub not_excluded : ¬ In v.key (excluded_by opts.namespace ws)
  pub is_selected : IsSelected opts.selector v.labels

left_out : (held by : Bool) → held ≡ (by || false) → ¬ (by ≡ true) → held ≡ false
left_out held true e h = absurd (h refl)
left_out held false e h = e

module _ {A : Type 0} ⦃e : Eq A⦄ where
  contains-In : (xs : List A) (a : A) → contains xs a ≡ true → In a xs
  contains-In xs a h =
      let (b, m, k) = any→In xs (λ x. x == a) h in subst (λ c. In c xs) ((e.equals_iff b a).0 k) m

  In-contains : (xs : List A) (a : A) → In a xs → contains xs a ≡ true
  In-contains xs a m = In→any (λ x. x == a) m ((e.equals_iff a a).1 refl)

selected-IsSelected :
    (o : Option (List (String × String) → Bool)) (labels : List (String × String))
    → (selected o labels ≡ true) ↔ IsSelected o labels
selected-IsSelected none labels = ((λ h. tt), λ h. refl)
selected-IsSelected (some matches) labels = ((λ h. h), λ h. h)

kept_by :
    (manages excluded : Bool) (select : Bool)
    → (if not manages || excluded then false else select) ≡ true
    → (manages ≡ true) × (excluded ≡ false) × (select ≡ true)
kept_by true false select h = (refl, refl, h)
kept_by true true select h = ground arith
kept_by false b select h = ground arith

keeps :
    (manages excluded : Bool) (select : Bool)
    → manages ≡ true
    → excluded ≡ false
    → select ≡ true
    → (if not manages || excluded then false else select) ≡ true
keeps m x select h k l = rw (h, k) l

-- After any writes of a new store, `Managed` serves a version exactly where it is the latest of its key,
-- not deleted, of a kind the target manages, of an object that no write excluded, and selected.
pub managed-IsManaged :
    (opts : Options) (ws : List Write) (v : Version)
    → In v (managed (write_all ws (new_store opts))) ↔ IsManaged opts ws v
unfolding managed version_is_managed
managed-IsManaged opts ws v =
    let s = write_all ws (new_store opts) in
    let indexed = write_all-IsIndexed ws (new_store opts) (IsIndexed-new opts) in
    let same : s.opts ≡ opts = write_all-opts ws (new_store opts) in
    let out : contains s.excluded v.key
        ≡ (contains (excluded_by opts.namespace ws) v.key || false) =
      excludes ws (new_store opts) v.key in
    (
      λ m.
          let l = All-In _ _ (live-IsLive s (version_is_managed s) indexed) m in
          let (kind, left, labels) =
            kept_by (contains s.opts.manages v.key.gvk) (contains s.excluded v.key) _ l.kept in
          record {
            is_latest = l.is_latest;
            there_still = l.there_still;
            of_kind =
                contains-In opts.manages v.key.gvk
                  (subst (λ (o : Options). contains o.manages v.key.gvk ≡ true) same kind);
            not_excluded =
                λ x. let held = In-contains (excluded_by opts.namespace ws) v.key x in ground arith;
            is_selected =
                (selected-IsSelected opts.selector v.labels).0
                  (subst (λ (o : Options). selected o.selector v.labels ≡ true) same labels);
          },
      λ l. IsLive-In s (version_is_managed s) (record {
        is_latest = l.is_latest;
        there_still = l.there_still;
        kept =
            keeps (contains s.opts.manages v.key.gvk) (contains s.excluded v.key) _
              (subst (λ (o : Options). contains o.manages v.key.gvk ≡ true) (sym same)
                (In-contains opts.manages v.key.gvk l.of_kind))
              (left_out (contains s.excluded v.key) _ out
                (λ h. l.not_excluded (contains-In _ v.key h)))
              (subst (λ (o : Options). selected o.selector v.labels ≡ true) (sym same)
                ((selected-IsSelected opts.selector v.labels).1 l.is_selected));
      }),
    )
