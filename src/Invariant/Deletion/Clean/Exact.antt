-- ===== src/Invariant/Deletion/Clean/Exact.antt =====
-- The reports of G3, and what is left of a deleted CR.
use botbox.Base.{
  String, Bool, true, false, Option, none, some, List, [], ◌∷◌, ◌≡◌, refl, sym, ap, subst, ◌∙◌, ◌↔◌,
  String-eq, arith, if◌then◌else◌, filter_by-In, In-filter_by, inl, inr, In, here, there,
  In-append_old, In-append_right, In-map_of, is_some, ◌==◌,
}
use botbox.Base.Map.{Map, lookup, insert, lookup-insert, beq_refl}
use botbox.Observe.{Key, Key-eq, Version}
use botbox.Invariant.{Input}
use botbox.Invariant.State.{state_at, managed, managed_by}
use botbox.Invariant.State.Serves.{state_at_unique}
use botbox.Invariant.Deletion.{Deletion, cr_deletions, held}
use botbox.Invariant.Deletion.Clean.Answers.{Answers-left_by}
use botbox.Invariant.Deletion.Clean.Verdict.{IsJudged, Had, IsTrue, uids_of-In, violation-IsTrue}
use botbox.Invariant.Deletion.Clean.{
  Leftover, finalizers, object, uids_of, is_same, leaves, leftovers, judge, judge_all,
  clean_deletion,
}

-- An entry stays, and each version has one.
uids_of-keeps :
    (key : Key) (vs : List Version) (m : Map Key String)
    → is_some (lookup key m) ≡ true
    → is_some (lookup key (uids_of vs m)) ≡ true
unfolding uids_of
uids_of-keeps key [] m h = h
uids_of-keeps key (v ∷ vs) m h =
    uids_of-keeps key vs (insert v.key v.uid m)
      (ap is_some (lookup-insert v.key key v.uid m) ∙ by (v.key == key))
  where
    by : (b : Bool) → is_some (if b then some v.uid else lookup key m) ≡ true
    by true = refl
    by false = h

uids_of-has :
    {w : Version} (vs : List Version) (m : Map Key String)
    → In w vs
    → is_some (lookup w.key (uids_of vs m)) ≡ true
unfolding uids_of
uids_of-has [] m n = elim n [ ]
uids_of-has {w = w} (v ∷ vs) m (here e) =
    subst (λ x. is_some (lookup x.key (uids_of vs (insert v.key v.uid m))) ≡ true) (sym e)
      (uids_of-keeps v.key vs (insert v.key v.uid m)
        (ap is_some (lookup-insert v.key v.key v.uid m) ∙ rw (beq_refl v.key) refl))
uids_of-has (v ∷ vs) m (there n) = uids_of-has vs (insert v.key v.uid m) n

managed-live :
    (inp : Input) (d : Deletion) {w : Version}
    → In w (managed (state_at inp d.at) inp)
    → In w (state_at inp d.at).live
unfolding managed
managed-live inp d n = (In-filter_by (managed_by inp.history) (state_at inp d.at).live n).0

module _ (group_of : String → String) where
  Had-is_same :
      (inp : Input) (d : Deletion) (v : Version)
      → Had inp d v
      → is_same (lookup v.key (uids_of (managed (state_at inp d.at) inp) [])) v.uid ≡ true
  unfolding lookup
  Had-is_same inp d v (w, m, k, u) =
      by (lookup v.key (uids_of (managed (state_at inp d.at) inp) [])) refl (
        subst (λ key. is_some (lookup key (uids_of (managed (state_at inp d.at) inp) [])) ≡ true) k
          (uids_of-has (managed (state_at inp d.at) inp) [] m))
    where
      by :
          (o : Option String)
          → lookup v.key (uids_of (managed (state_at inp d.at) inp) []) ≡ o
          → is_some o ≡ true
          → is_same o v.uid ≡ true
      by none q h = absurd (ground arith)
      by (some uid) q h = elim (uids_of-In v.key uid (managed (state_at inp d.at) inp) [] q) [
        | inl e ↦ absurd (ground arith)
        | inr (w', m', k', u') ↦
            let one =
              state_at_unique inp d.at (managed-live inp d m') (managed-live inp d m)
                (k' ∙ sym k) in
            let e : uid ≡ v.uid = sym u' ∙ ap (λ x. x.uid) one ∙ u in
            (String-eq.equals_iff uid v.uid).1 e
      ]

  IsTrue-leftovers :
      (inp : Input) (d : Deletion) (l : Leftover)
      → IsTrue group_of inp d l
      → In l (leftovers group_of inp d)
  unfolding leftovers leaves
  IsTrue-leftovers inp d (finalizers of) (e, h) =
      subst (λ x. In (finalizers x) (leftovers group_of inp d)) (sym e) (rw h (here refl))
  IsTrue-leftovers inp d (object of v) (e, m, had, answers) =
      let left = managed (state_at inp d.deadline) inp in
      let same = Had-is_same inp d v had in
      let its = Answers-left_by group_of inp d v answers in
      In-append_right (if held (state_at inp d.deadline) d then finalizers d ∷ [] else []) (
        In-map_of (object d) (filter_by-In (leaves group_of inp d) m (ground arith))
          (ap (λ x. object x v) e))

  IsTrue-judge :
      (inp : Input) (d : Deletion) (l : Leftover)
      → IsJudged inp d
      → IsTrue group_of inp d l
      → In l (judge group_of inp d).violations
  unfolding judge
  IsTrue-judge inp d l (at, p, q, r) t = rw (p, q, r) (IsTrue-leftovers inp d l t)

  judge_all-In :
      (inp : Input) (ds : List Deletion) (l : Leftover) {d : Deletion}
      → In d ds
      → In l (judge group_of inp d).violations
      → In l (judge_all group_of inp ds).violations
  unfolding judge_all
  judge_all-In inp [] l at m = elim at [ ]
  judge_all-In inp (d ∷ ds) l (here e) m =
      In-append_old (judge_all group_of inp ds).violations
        (subst (λ x. In l (judge group_of inp x).violations) e m)
  judge_all-In inp (d ∷ ds) l (there at) m =
      In-append_right (judge group_of inp d).violations (judge_all-In inp ds l at m)

  -- G3 reports exactly what is left of a deletion that it judges: one before whose deadline no fault was
  -- active, whose deadline the run observed, and by which the namespace was not empty. It reports the CR of
  -- that UID where it was there at the deadline with finalizers, and each managed object that was there
  -- then, of the same UID as when the CR went, and names the CR or no CR; where no other CR that the object
  -- may belong to was there at the deadline, nor has a deadline later than that.
  pub clean_deletion-IsTrue :
      (inp : Input) (l : Leftover)
      → In l (clean_deletion group_of inp).violations
        ↔ ((d : Deletion) × IsJudged inp d × IsTrue group_of inp d l)
  unfolding clean_deletion
  clean_deletion-IsTrue inp l = (
    violation-IsTrue group_of inp l,
    (λ k. judge_all-In inp (cr_deletions inp) l k.1.0 (IsTrue-judge inp k.0 l k.1 k.2)),
  )
