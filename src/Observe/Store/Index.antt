-- ===== src/Observe/Store/Index.antt =====
-- The index of the store: `byKey` is what a scan of the history would find.
use mathlib.Core.List.{filter_map}
use botbox.Base.{
  ℕ, suc, String, ◌<◌, ◌≤◌, All, subst, get_elem?-lt, ◌+◌, ◌≡◌, refl, sym, ap, ◌∙◌, true, false,
  some, List, [], ◌∷◌, ◌++◌, ◌==◌, if◌then◌else◌, length, get_elem?, get_last?, filter_by,
  Bool-cases, ◌⊎◌, inl, inr, arith, append_assoc, append-nil, length-append,
}
use botbox.Base.Map.{lookup, insert, lookup-insert}
use botbox.Observe.{Key, GroupVersionKind, Key-eq, Version, key_beq_iff}
use botbox.Observe.Store.{
  Store, Options, version_at, new_store, positions, latest, record_version, repeats, history,
  exclude,
}

-- The positions of a key's versions in a history that begins at position `n`.
abbrev positions_from : ℕ → Key → List Version → List ℕ
positions_from n key [] = []
positions_from n key (v ∷ vs) =
    let rest = positions_from (suc n) key vs in if v.key == key then n ∷ rest else rest

-- The index of every key is what a scan of the history finds.
abbrev pub IsIndexed : Store → Type 0
IsIndexed s = (key : Key) → positions s key ≡ positions_from 0 key s.versions

-- The versions of one key.
abbrev pub of_key : Key → List Version → List Version
of_key key vs = filter_by (λ v. v.key == key) vs

positions_from-append :
    (n : ℕ) (key : Key) (vs : List Version) (v : Version)
    → positions_from n key (vs ++ v ∷ [])
      ≡ positions_from n key vs ++ (if v.key == key then (n + length vs) ∷ [] else [])
positions_from-append n key [] v = elim (Bool-cases (v.key == key)) [
  | inl e ↦ rw e (ap (λ (m : ℕ). m ∷ []) (omega arith))
  | inr e ↦ rw e
]
positions_from-append n key (w ∷ vs) v =
    let ih = positions_from-append (suc n) key vs v in
    let shift : suc n + length vs ≡ n + suc (length vs) = omega arith in
    elim (Bool-cases (w.key == key)) [ inl e ↦ rw (e, ih, shift) | inr e ↦ rw (e, ih, shift) ]

get_elem?-middle :
    (us : List Version) (v : Version) (vs : List Version)
    → get_elem? (us ++ v ∷ vs) (length us) ≡ some v
get_elem?-middle [] v vs = refl
get_elem?-middle (u ∷ us) v vs = get_elem?-middle us v vs

read_lem :
    (key : Key) (n : ℕ) (us vs all : List Version)
    → n ≡ length us
    → all ≡ us ++ vs
    → filter_map (get_elem? all) (positions_from n key vs) ≡ of_key key vs
unfolding filter_map
read_lem key n us [] all e a = refl
read_lem key n us (v ∷ vs) all e a =
    let ih =
      read_lem key (suc n) (us ++ v ∷ []) vs all (omega (arith, length-append {0} us (v ∷ [])))
        (a ∙ sym (append_assoc us (v ∷ []) vs)) in
    let here : get_elem? all n ≡ some v = rw (e, a) (get_elem?-middle us v vs) in
    elim (Bool-cases (v.key == key)) [ inl m ↦ rw (m, here, ih) | inr m ↦ rw (m, ih) ]

pub IsIndexed-new : (opts : Options) → IsIndexed (new_store opts)
unfolding positions lookup
IsIndexed-new opts key = refl

positions-insert :
    (s : Store) (key k : Key) (ps : List ℕ) (vs : List Version)
    → positions (record s { by_key = insert key ps s.by_key; versions = vs }) k
      ≡ (if key == k then ps else positions s k)
unfolding positions
positions-insert s key k ps vs = ground (arith, lookup-insert key k ps s.by_key)

pub record_version-IsIndexed :
    (v : Version) (s : Store) → IsIndexed s → IsIndexed (record_version v s)
unfolding record_version
record_version-IsIndexed v s h key = elim (Bool-cases (repeats v (latest s v.key))) [
  | inl e ↦ rw e (h key)
  | inr e ↦ rw e (
      positions-insert s v.key key (positions s v.key ++ length s.versions ∷ [])
        (s.versions ++ v ∷ [])
      ∙ added (Bool-cases (v.key == key)))
]
  where
    entry :
        v.key == key ≡ true
        → (if v.key == key then (0 + length s.versions) ∷ [] else []) ≡ length s.versions ∷ []
    entry m = rw m (ap (λ (n : ℕ). n ∷ []) (omega arith))

    added :
        (v.key == key ≡ true) ⊎ (v.key == key ≡ false)
        → (if v.key == key then positions s v.key ++ length s.versions ∷ [] else positions s key)
          ≡ positions_from 0 key (s.versions ++ v ∷ [])
    added (inl m) =
        let chosen : (if v.key == key
              then positions s v.key ++ length s.versions ∷ []
              else positions s key)
            ≡ positions s v.key ++ length s.versions ∷ [] =
          rw m in
        chosen
        ∙ ap (λ ps. ps ++ length s.versions ∷ [])
            (ap (positions s) ((key_beq_iff v.key key).0 m) ∙ h key)
        ∙ sym (
            positions_from-append 0 key s.versions v
            ∙ ap (λ ps. positions_from 0 key s.versions ++ ps) (entry m))
    added (inr m) =
        let chosen : (if v.key == key
              then positions s v.key ++ length s.versions ∷ []
              else positions s key)
            ≡ positions s key =
          rw m in
        let nothing : (if v.key == key then (0 + length s.versions) ∷ [] else []) ≡ [] = rw m in
        chosen
        ∙ h key
        ∙ sym (
            positions_from-append 0 key s.versions v
            ∙ ap (λ ps. positions_from 0 key s.versions ++ ps) nothing
            ∙ append-nil (positions_from 0 key s.versions))

pub exclude-IsIndexed :
    (gvk : GroupVersionKind) (name : String) (s : Store)
    → IsIndexed s
    → IsIndexed (exclude gvk name s)
unfolding exclude positions
exclude-IsIndexed gvk name s h key = h key

-- What `History` returns is the versions of the key, in the order recorded.
pub history_lem : (s : Store) (key : Key) → IsIndexed s → history s key ≡ of_key key s.versions
unfolding history
history_lem s key h = rw (h key) (read_lem key 0 [] s.versions s.versions refl refl)

get_last?-map_read :
    (all : List Version) (ps : List ℕ)
    → All (λ p. p < length all) ps
    → version_at all (get_last? ps) ≡ get_last? (filter_map (get_elem? all) ps)
unfolding filter_map
get_last?-map_read all [] h = refl
get_last?-map_read all (p ∷ []) (h, _) = let (v, e) = get_elem?-lt all p h in rw e
get_last?-map_read all (p ∷ q ∷ ps) (h, (hq, hs)) =
    let (v, e) = get_elem?-lt all p h in
    let (w, d) = get_elem?-lt all q hq in
    let ih = get_last?-map_read all (q ∷ ps) (hq, hs) in rw (e, d) (rw d at ih)

positions_from-lt :
    (n m : ℕ) (key : Key) (vs : List Version)
    → n + length vs ≤ m
    → All (λ p. p < m) (positions_from n key vs)
positions_from-lt n m key [] h = tt
positions_from-lt n m key (v ∷ vs) h = elim (Bool-cases (v.key == key)) [
  | inl e ↦ rw e (omega arith, positions_from-lt (suc n) m key vs (omega arith))
  | inr e ↦ rw e (positions_from-lt (suc n) m key vs (omega arith))
]

pub latest_lem :
    (s : Store) (key : Key) → IsIndexed s → latest s key ≡ get_last? (of_key key s.versions)
unfolding latest history
latest_lem s key h =
    let le : All (λ p. p < length s.versions) (positions s key) =
      subst (All (λ p. p < length s.versions)) (sym (h key))
        (positions_from-lt 0 (length s.versions) key s.versions (omega arith)) in
    get_last?-map_read s.versions (positions s key) le ∙ ap get_last? (history_lem s key h)

-- The calls that write the store: an event that the Observer records, or an exclusion.
pub data Write : Type 0 where
  recorded : Version → Write
  excluded : GroupVersionKind → String → Write

unfoldable pub write : Write → Store → Store
unfolding record_version exclude
write (recorded v) s = record_version v s
write (excluded gvk name) s = exclude gvk name s

unfoldable pub write_all : List Write → Store → Store
write_all [] s = s
write_all (w ∷ ws) s = write_all ws (write w s)

pub write_all-IsIndexed : (ws : List Write) (s : Store) → IsIndexed s → IsIndexed (write_all ws s)
unfolding write_all write
write_all-IsIndexed [] s h = h
write_all-IsIndexed (recorded v ∷ ws) s h =
    write_all-IsIndexed ws (record_version v s) (record_version-IsIndexed v s h)
write_all-IsIndexed (excluded gvk name ∷ ws) s h =
    write_all-IsIndexed ws (exclude gvk name s) (exclude-IsIndexed gvk name s h)

-- After any writes of a new store, the index of each key serves what a scan of the whole history
-- would: `History` returns the versions of the key in the order recorded, and `latest` the last.
pub write_all-history :
    (opts : Options) (ws : List Write) (key : Key)
    → (history (write_all ws (new_store opts)) key
        ≡ of_key key (write_all ws (new_store opts)).versions)
      × (latest (write_all ws (new_store opts)) key
          ≡ get_last? (of_key key (write_all ws (new_store opts)).versions))
write_all-history opts ws key =
    let s = write_all ws (new_store opts) in
    let indexed = write_all-IsIndexed ws (new_store opts) (IsIndexed-new opts) in
    (history_lem s key indexed, latest_lem s key indexed)
