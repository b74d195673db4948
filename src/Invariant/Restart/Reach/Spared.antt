-- ===== src/Invariant/Restart/Reach/Spared.antt =====
-- What the ops did not reach.
use botbox.Base.{
  String, Bool, true, false, ◌||◌, List, [], ◌∷◌, ◌++◌, map, ◌==◌, ◌≡◌, refl, ◌∙◌, String-eq,
  contains, any, not, filter_by, ◌&&◌, ◌≢◌, ◌⊎◌, inl, inr, All, arith, if◌then◌else◌, if-cases,
}
use botbox.Observe.{Key-eq, GroupVersionKind-eq, gvk_beq_iff, Version}
use botbox.Invariant.{Input, Op, zero_key, on_fixture}
use botbox.Invariant.Attribution.{is_empty, named_crs}
use botbox.Invariant.Deletion.{history_of}
use botbox.Invariant.Deletion.Clean.{version_at}
use botbox.Invariant.Healing.{or_zero_version}
use botbox.Invariant.Restart.Reach.{Reach, took, reach_of, reach_from, reached, touches}

contains-append :
    (xs ys : List String) (uid : String)
    → contains (xs ++ ys) uid ≡ (contains xs uid || contains ys uid)
contains-append [] ys uid = refl
contains-append (x ∷ xs) ys uid = ground (arith, contains-append xs ys uid)

module _ (group_of : String → String) where
  -- The CRs that own an object: those of its owner references that are of the primary group and kind.
  abbrev pub owner_crs : Input → Version → List String
  owner_crs inp v =
      map (λ ref. ref.uid)
        (filter_by
          (λ ref.
            group_of ref.api_version == inp.target.primary.group
            && ref.kind == inp.target.primary.kind)
          v.owner_references)

  -- The op did not change a fixture, the object was never the CR it acted on, and an object that it deleted
  -- names CRs, and not this one.
  pub record IsSparedBy (inp : Input) (o : Op) (uid : String) : Type 0 where
    pub off_fixtures : (on_fixture o.type || o.restored) ≡ false
    pub not_acted_on : contains (map (λ v. v.uid) (history_of inp.history o.cr)) uid ≡ false
    pub not_taken :
        (o.deleted == zero_key) ≡ false
        → let named = owner_crs inp (or_zero_version (version_at inp o.deleted o.time)) in
          (is_empty named ≡ false) × (contains named uid ≡ false)

  abbrev Misses : Reach → String → Type 0
  Misses r uid = (r.everything ≡ false) × (contains r.crs uid ≡ false)

  reach_of-Misses :
      (inp : Input) (o : Op) (r : Reach) (uid : String)
      → Misses (reach_of group_of inp o r) uid
      → Misses r uid × IsSparedBy inp o uid
  unfolding reach_of named_crs
  reach_of-Misses inp o r uid = by (o.deleted == zero_key) refl
    where
      acted_uids : List String
      acted_uids = map (λ v. v.uid) (history_of inp.history o.cr)

      acted : Reach
      acted = record r {
        everything = r.everything || (on_fixture o.type || o.restored);
        crs = acted_uids ++ r.crs;
      }

      named : List String
      named = named_crs group_of inp (or_zero_version (version_at inp o.deleted o.time))

      by :
          (b : Bool)
          → (o.deleted == zero_key) ≡ b
          → Misses (if b then acted else took group_of acted named) uid
          → Misses r uid × IsSparedBy inp o uid
      by true e (h, k) =
          let split = contains-append acted_uids r.crs uid in
          (
            (ground arith, ground arith),
            record {
              off_fixtures = ground arith;
              not_acted_on = ground arith;
              not_taken = λ z. absurd (ground arith);
            },
          )
      by false e (h, k) =
          let outer = contains-append named (acted_uids ++ r.crs) uid in
          let split = contains-append acted_uids r.crs uid in
          (
            (ground arith, ground arith),
            record {
              off_fixtures = ground arith;
              not_acted_on = ground arith;
              not_taken = λ z. (ground arith, ground arith);
            },
          )

  reach_from-Misses :
      (inp : Input) (ops : List Op) (r : Reach) (uid : String)
      → Misses (reach_from group_of inp ops r) uid
      → Misses r uid × All (λ o. IsSparedBy inp o uid) ops
  unfolding reach_from
  reach_from-Misses inp [] r uid h = (h, tt)
  reach_from-Misses inp (o ∷ ops) r uid h =
      let (on, rest) = reach_from-Misses inp ops (reach_of group_of inp o r) uid h in
      let (before, this) = reach_of-Misses inp o r uid on in (before, (this, rest))

  reach_of-some_op :
      (inp : Input) (o : Op) (r : Reach) → (reach_of group_of inp o r).some_op ≡ r.some_op
  unfolding reach_of
  reach_of-some_op inp o r =
      if-cases (λ (x : Reach). x.some_op ≡ r.some_op) (o.deleted == zero_key) _ _ (λ e. refl)
        (λ e. refl)

  reach_from-some_op :
      (inp : Input) (ops : List Op) (r : Reach)
      → (reach_from group_of inp ops r).some_op ≡ r.some_op
  unfolding reach_from
  reach_from-some_op inp [] r = refl
  reach_from-some_op inp (o ∷ ops) r =
      reach_from-some_op inp ops (reach_of group_of inp o r) ∙ reach_of-some_op inp o r

  -- Each op spares the object, and the CRs that own it: it is a CR, or it names CRs and each of them is
  -- spared too. Without an op, everything is.
  pub record IsSpared (inp : Input) (ops : List Op) (v : Version) : Type 0 where
    pub itself : All (λ o. IsSparedBy inp o v.uid) ops
    pub its_crs :
        (ops ≡ [])
        ⊎ (v.key.gvk ≡ inp.target.primary)
        ⊎ ((owner_crs inp v ≢ [])
            × All (λ uid. All (λ o. IsSparedBy inp o uid) ops) (owner_crs inp v))

  none-Misses :
      (inp : Input) (ops : List Op) (r : Reach)
      → (reach_from group_of inp ops r).everything ≡ false
      → (uids : List String)
      → any uids (λ uid. contains (reach_from group_of inp ops r).crs uid) ≡ false
      → All (λ uid. All (λ o. IsSparedBy inp o uid) ops) uids
  none-Misses inp ops r e [] h = tt
  none-Misses inp ops r e (uid ∷ uids) h = (
    (reach_from-Misses inp ops r uid (e, ground arith)).1,
    none-Misses inp ops r e uids (ground arith),
  )

  untouched_by :
      (some every held primary empty others : Bool)
      → some ≡ true
      → (if not some
          then false
          else if every || held
          then true
          else if primary
          then false
          else empty || others)
        ≡ false
      → (every ≡ false) × (held ≡ false) × ((primary ≡ true) ⊎ ((empty ≡ false) × (others ≡ false)))
  untouched_by some every held primary empty others e h = ground arith

  nonempty : (xs : List String) → is_empty xs ≡ false → xs ≢ []
  nonempty [] h e = ground arith
  nonempty (x ∷ xs) h e = ground arith

  -- An object that the reach of the ops does not touch is spared by each of them: none changed a fixture,
  -- it was never the CR that one acted on, and each object that one deleted names CRs, and not this one.
  -- Unless it is a CR, it names CRs, and each of these is spared in the same way.
  pub touches-IsSpared :
      (inp : Input) (ops : List Op) (v : Version)
      → touches group_of inp (reached group_of inp ops) v ≡ false
      → IsSpared inp ops v
  unfolding touches reached named_crs
  touches-IsSpared inp [] v h = record { itself = tt; its_crs = inl refl }
  touches-IsSpared inp (o ∷ ops) v h =
      let r = reach_from group_of inp (o ∷ ops) start in
      let (every, held, owned) =
        untouched_by r.some_op r.everything (contains r.crs v.uid) (v.key.gvk == inp.target.primary)
          (is_empty (owner_crs inp v)) (any (owner_crs inp v) (λ uid. contains r.crs uid))
          (reach_from-some_op inp (o ∷ ops) start) h in
      record {
        itself = (reach_from-Misses inp (o ∷ ops) start v.uid (every, held)).1;
        its_crs = inr (elim owned [
          | inl cr ↦ inl ((gvk_beq_iff v.key.gvk inp.target.primary).0 cr)
          | inr (named, missed) ↦ inr (
            nonempty (owner_crs inp v) named,
            none-Misses inp (o ∷ ops) start every (owner_crs inp v) missed,
          )
        ]);
      }
    where
      start : Reach
      start = record { some_op = true; everything = false; crs = [] }
