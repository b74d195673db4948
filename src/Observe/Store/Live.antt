-- ===== src/Observe/Store/Live.antt =====
-- Which versions the store serves as live.
use mathlib.Core.List.{filter_map}
use botbox.Base.{
  ◌≡◌, refl, sym, subst, ap, ◌∙◌, Bool, true, false, not, ◌||◌, Option, none, some, List, [], ◌∷◌,
  ◌==◌, get_last?, All, In, here, there, Bool-cases, inl, inr, arith, map, ℕ, In-filter_by,
}
use mathlib.Core.Option.{some-injective, Option-elim}
use botbox.Base.Map.{Map, lookup}
use botbox.Base.Sort.{insert_by, sort_by, In-sort_by}
use botbox.Observe.{Key, Key-eq, Version, key_beq_iff}
use botbox.Observe.Store.{
  Store, latest, positions, live, keys, unless_deleted, version_at, or_empty,
}
use botbox.Observe.Store.Index.{IsIndexed, of_key, latest_lem}

All-insert_by {ℓ} :
    {A : Type ℓ} (P : A → Type 0) (less : A → A → Bool) (x : A) (ys : List A)
    → P x
    → All P ys
    → All P (insert_by less x ys)
All-insert_by P less x [] p h = (p, tt)
All-insert_by P less x (y ∷ ys) p (q, h) = elim (Bool-cases (less y x)) [
  | inl e ↦ rw e (q, All-insert_by P less x ys p h)
  | inr e ↦ rw e (p, (q, h))
]

All-sort_by {ℓ} :
    {A : Type ℓ} (P : A → Type 0) (less : A → A → Bool) (xs : List A)
    → All P xs
    → All P (sort_by less xs)
All-sort_by P less [] h = tt
All-sort_by P less (x ∷ xs) (p, h) =
    All-insert_by P less x (sort_by less xs) p (All-sort_by P less xs h)

-- A predicate of an optional entry, where there is one.
abbrev Each {ℓ} : {A : Type ℓ} → (A → Type 0) → Option A → Type 0
Each P none = Unit
Each P (some a) = P a

module _ {K V : Type 0} (f : K → Option V) where
  filter_map-All :
      (P : V → Type 0) (ks : List K) → ((k : K) → Each P (f k)) → All P (filter_map f ks)
  unfolding filter_map
  filter_map-All P [] h = tt
  filter_map-All P (k ∷ ks) h = pushed (f k) (h k) (filter_map-All P ks h)
    where
      pushed :
          (o : Option V)
          → Each P o
          → All P (filter_map f ks)
          → All P (Option-elim o (filter_map f ks) (λ b. b ∷ filter_map f ks))
      pushed none p rest = rest
      pushed (some v) p rest = (p, rest)

  filter_map-In : {k : K} {v : V} (ks : List K) → In k ks → f k ≡ some v → In v (filter_map f ks)
  unfolding filter_map
  filter_map-In [] m e = elim m [ ]
  filter_map-In {v} (k ∷ ks) (here q) e = rw (ap f (sym q) ∙ e) (here refl)
  filter_map-In {v} (k ∷ ks) (there m) e = pushed (f k) (filter_map-In ks m e)
    where
      pushed :
          (o : Option V)
          → In v (filter_map f ks)
          → In v (Option-elim o (filter_map f ks) (λ b. b ∷ filter_map f ks))
      pushed none n = n
      pushed (some w) n = there n

pub get_last?-In {ℓ} : {A : Type ℓ} (xs : List A) {a : A} → get_last? xs ≡ some a → In a xs
get_last?-In [] e = absurd (ground arith)
get_last?-In (x ∷ []) e = here (sym (some-injective _ _ e))
get_last?-In (x ∷ y ∷ ys) e = there (get_last?-In (y ∷ ys) e)

latest-key :
    (s : Store) (key : Key) {v : Version} → IsIndexed s → latest s key ≡ some v → v.key ≡ key
latest-key s key {v} h e =
    let (old, same) =
      In-filter_by (λ w. w.key == key) s.versions
        (get_last?-In (of_key key s.versions) (sym (latest_lem s key h) ∙ e)) in
    (key_beq_iff v.key key).0 same

-- A version that is live: the latest of its key, not deleted, and of those to keep.
pub record IsLive (s : Store) (keep : Version → Bool) (v : Version) : Type 0 where
  pub is_latest : latest s v.key ≡ some v
  pub there_still : v.deleted ≡ false
  pub kept : keep v ≡ true

unless_deleted-IsLive :
    (s : Store) (keep : Version → Bool) (key : Key)
    → IsIndexed s
    → (o : Option Version) → latest s key ≡ o
    → Each (IsLive s keep) (unless_deleted keep o)
unless_deleted-IsLive s keep key h none e = tt
unless_deleted-IsLive s keep key h (some v) e = elim (Bool-cases (v.deleted || not (keep v))) [
  | inl d ↦ rw d tt
  | inr d ↦ rw d (record {
    is_latest = ap (latest s) (latest-key s key h e) ∙ e;
    there_still = ground arith;
    kept = ground arith;
  })
]

lookup-In :
    (key : Key) {ps : List ℕ} (m : Map Key (List ℕ))
    → lookup key m ≡ some ps
    → In key (map (λ e. e.0) m)
unfolding lookup
lookup-In key [] e = absurd (ground arith)
lookup-In key {ps} (entry ∷ m) e = elim (Bool-cases (entry.0 == key)) [
  | inl q ↦ here (sym ((key_beq_iff entry.0 key).0 q))
  | inr q ↦ let later : lookup key m ≡ some ps = ground arith in there (lookup-In key m later)
]

latest-In : (s : Store) (key : Key) {v : Version} → latest s key ≡ some v → In key (keys s)
unfolding latest positions
latest-In s key {v} e = known (lookup key s.by_key) refl e
  where
    known :
        (o : Option (List ℕ))
        → lookup key s.by_key ≡ o
        → version_at s.versions (get_last? (or_empty (lookup key s.by_key))) ≡ some v
        → In key (keys s)
    known none q k =
        let nothing : version_at s.versions none ≡ some v =
          subst (λ l. version_at s.versions (get_last? (or_empty l)) ≡ some v) q k in
        absurd (ground arith)
    known (some ps) q k = lookup-In key s.by_key q

pub live-IsLive :
    (s : Store) (keep : Version → Bool) → IsIndexed s → All (IsLive s keep) (live s keep)
unfolding live
live-IsLive s keep h = All-sort_by (IsLive s keep) _ _ (
    filter_map-All (λ key. unless_deleted keep (latest s key)) (IsLive s keep) (keys s)
      (λ key. unless_deleted-IsLive s keep key h (latest s key) refl))

kept_version :
    (keep : Version → Bool) (v : Version)
    → v.deleted ≡ false
    → keep v ≡ true
    → unless_deleted keep (some v) ≡ some v
kept_version keep v d k = ground arith

pub IsLive-In :
    (s : Store) (keep : Version → Bool) {v : Version} → IsLive s keep v → In v (live s keep)
unfolding live
IsLive-In s keep {v} l = In-sort_by _ (
    filter_map-In (λ key. unless_deleted keep (latest s key)) (keys s)
      (latest-In s v.key l.is_latest)
      (ap (unless_deleted keep) l.is_latest ∙ kept_version keep v l.there_still l.kept))
