-- ===== src/Observe/Store/Repeats.antt =====
-- A relist does not duplicate the history of an object.
use botbox.Base.{
  ◌≡◌, sym, subst, true, false, some, List, [], ◌∷◌, ◌++◌, ◌==◌, if◌then◌else◌, get_last?,
  filter_by-append, Bool-cases, ◌⊎◌, inl, inr, append-nil,
}
use botbox.Observe.{Key, Key-eq, Version, key_beq_iff}
use botbox.Observe.Store.{
  Store, Options, new_store, latest, history, record_version, exclude, repeats,
}
use botbox.Observe.Store.Index.{
  IsIndexed, of_key, latest_lem, history_lem, record_version-IsIndexed, exclude-IsIndexed,
  IsIndexed-new, Write, recorded, excluded, write, write_all,
}

-- No version repeats the one before it.
abbrev pub HasNoRepeat : List Version → Type 0
HasNoRepeat [] = Unit
HasNoRepeat (v ∷ []) = Unit
HasNoRepeat (v ∷ w ∷ vs) = (repeats w (some v) ≡ false) × HasNoRepeat (w ∷ vs)

HasNoRepeat-append :
    (vs : List Version) (v : Version)
    → HasNoRepeat vs
    → repeats v (get_last? vs) ≡ false
    → HasNoRepeat (vs ++ v ∷ [])
HasNoRepeat-append [] v h r = tt
HasNoRepeat-append (u ∷ []) v h r = (r, tt)
HasNoRepeat-append (u ∷ w ∷ vs) v (e, h) r = (e, HasNoRepeat-append (w ∷ vs) v h r)

record IsGood (s : Store) : Type 0 where
  indexed : IsIndexed s
  no_repeat : (key : Key) → HasNoRepeat (of_key key s.versions)

of_key-append :
    (key : Key) (vs : List Version) (v : Version)
    → of_key key (vs ++ v ∷ []) ≡ of_key key vs ++ (if v.key == key then v ∷ [] else [])
of_key-append key vs v = filter_by-append (λ w. w.key == key) vs (v ∷ [])

added :
    (key : Key) (vs : List Version) (v : Version)
    → HasNoRepeat (of_key key vs)
    → repeats v (get_last? (of_key v.key vs)) ≡ false
    → (v.key == key ≡ true) ⊎ (v.key == key ≡ false)
    → HasNoRepeat (of_key key vs ++ (if v.key == key then v ∷ [] else []))
added key vs v h r (inl m) = rw m (
    HasNoRepeat-append (of_key key vs) v h
      (subst (λ k. repeats v (get_last? (of_key k vs)) ≡ false) ((key_beq_iff v.key key).0 m) r))
added key vs v h r (inr m) = rw m (subst HasNoRepeat (sym (append-nil (of_key key vs))) h)

record_version-no_repeat :
    (v : Version) (s : Store)
    → IsGood s
    → (key : Key) → HasNoRepeat (of_key key (record_version v s).versions)
unfolding record_version
record_version-no_repeat v s g key = elim (Bool-cases (repeats v (latest s v.key))) [
  | inl e ↦ rw e (g.no_repeat key)
  | inr e ↦ rw e (
      subst HasNoRepeat (sym (of_key-append key s.versions v)) (
        added key s.versions v (g.no_repeat key) (rw (latest_lem s v.key g.indexed) at e)
          (Bool-cases (v.key == key))))
]

write-IsGood : (w : Write) (s : Store) → IsGood s → IsGood (write w s)
unfolding write exclude
write-IsGood (recorded v) s g = record {
  indexed = record_version-IsIndexed v s g.indexed;
  no_repeat = record_version-no_repeat v s g;
}
write-IsGood (excluded gvk name) s g = record {
  indexed = exclude-IsIndexed gvk name s g.indexed;
  no_repeat = g.no_repeat;
}

write_all-IsGood : (ws : List Write) (s : Store) → IsGood s → IsGood (write_all ws s)
unfolding write_all
write_all-IsGood [] s g = g
write_all-IsGood (w ∷ ws) s g = write_all-IsGood ws (write w s) (write-IsGood w s g)

-- However often a version is delivered again, no version in the history of a key has the UID, the
-- resource version and the deletion mark of the version before it.
pub write_all-HasNoRepeat :
    (opts : Options) (ws : List Write) (key : Key)
    → HasNoRepeat (history (write_all ws (new_store opts)) key)
write_all-HasNoRepeat opts ws key =
    let g =
      write_all-IsGood ws (new_store opts)
        (record { indexed = IsIndexed-new opts; no_repeat = λ k. tt }) in
    subst HasNoRepeat (sym (history_lem (write_all ws (new_store opts)) key g.indexed))
      (g.no_repeat key)
