-- ===== src/Invariant/Deletion/Clean/Verdict.antt =====
-- What G3 reports, and of which deletion.
use botbox.Base.{
  String, Bool, true, false, Option, none, some, List, [], ◌∷◌, map, ◌≡◌, refl, sym, subst, ◌∙◌,
  String-eq, arith, if◌then◌else◌, filter_by, ◌⊎◌, inl, inr, In, here, there, In-filter_by,
  In-append_split, In-if_one, In-map,
}
use botbox.Base.Map.{Map, lookup, insert, insert-cases}
use botbox.Observe.{Key, Key-eq, Version}
use botbox.Invariant.{Input, observed, faulted}
use botbox.Invariant.State.{state_at, managed}
use botbox.Invariant.Deletion.{Deletion, cr_deletions, cleaned_by, held}
use botbox.Invariant.Deletion.Clean.Answers.{Answers, left_by-Answers}
use botbox.Invariant.Deletion.Clean.{
  note_taken, judged, Leftover, finalizers, object, uids_of, is_same, leaves, leftovers, judge,
  judge_all, clean_deletion,
}

-- An entry of the map `had` is one of a version.
pub uids_of-In :
    (key : Key) (uid : String) (vs : List Version) (m : Map Key String)
    → lookup key (uids_of vs m) ≡ some uid
    → (lookup key m ≡ some uid) ⊎ ((w : Version) × In w vs × (w.key ≡ key) × (w.uid ≡ uid))
unfolding uids_of
uids_of-In key uid [] m h = inl h
uids_of-In key uid (v ∷ vs) m h = elim (uids_of-In key uid vs (insert v.key v.uid m) h) [
  | inr (w, at, k, u) ↦ inr (w, there at, k, u)
  | inl found ↦ elim (insert-cases v.key key v.uid uid m found) [
    | inl (k, u) ↦ inr (v, here refl, k, u)
    | inr old ↦ inl old
  ]
]

-- A deletion that G3 judges: no fault was active before its deadline, whose end the run observed, and
-- the namespace was not empty by then.
abbrev pub IsJudged : Input → Deletion → Type 0
IsJudged inp d =
    In d (cr_deletions inp)
    × (cleaned_by inp d.deadline ≡ false)
    × (faulted inp d.at d.deadline ≡ false)
    × (observed inp d.deadline ≡ true)

abbrev pub Had : Input → Deletion → Version → Type 0
Had inp d v =
    (w : Version) × In w (managed (state_at inp d.at) inp) × (w.key ≡ v.key) × (w.uid ≡ v.uid)

module _ (group_of : String → String) where
  -- What a report says of the run.
  abbrev pub IsTrue : Input → Deletion → Leftover → Type 0
  IsTrue inp d (finalizers of) = (of ≡ d) × (held (state_at inp d.deadline) d ≡ true)
  IsTrue inp d (object of v) =
      (of ≡ d)
      × In v (managed (state_at inp d.deadline) inp)
      × Had inp d v
      × Answers group_of inp d v

  uids_of-Had :
      (inp : Input) (d : Deletion) (v : Version) (o : Option String)
      → lookup v.key (uids_of (managed (state_at inp d.at) inp) []) ≡ o
      → is_same o v.uid ≡ true
      → Had inp d v
  unfolding lookup
  uids_of-Had inp d v none q h = absurd (ground arith)
  uids_of-Had inp d v (some uid) q h =
      elim (uids_of-In v.key uid (managed (state_at inp d.at) inp) [] q) [
        | inl e ↦ absurd (ground arith)
        | inr (w, m, k, u) ↦ (w, m, k, u ∙ (String-eq.equals_iff uid v.uid).0 h)
      ]

  leaves-IsTrue :
      (inp : Input) (d : Deletion) (v : Version)
      → In v (managed (state_at inp d.deadline) inp)
      → leaves group_of inp d v ≡ true
      → IsTrue inp d (object d v)
  unfolding leaves
  leaves-IsTrue inp d v m h = (
    refl,
    m,
    uids_of-Had inp d v _ refl (ground arith),
    left_by-Answers group_of inp d v (ground arith),
  )

  leftovers-IsTrue :
      (inp : Input) (d : Deletion) (l : Leftover) → In l (leftovers group_of inp d) → IsTrue inp d l
  unfolding leftovers
  leftovers-IsTrue inp d l m =
      let left = managed (state_at inp d.deadline) inp in
      elim (In-append_split (if held (state_at inp d.deadline) d then finalizers d ∷ [] else [])
        (map (object d) (filter_by (leaves group_of inp d) left)) m) [
          | inl k ↦
              let (e, h) = In-if_one (held (state_at inp d.deadline) d) (finalizers d) k in
              subst (IsTrue inp d) (sym e) (refl, h)
          | inr k ↦
              let (v, old, e) = In-map (object d) (filter_by (leaves group_of inp d) left) k in
              let (was, h) = In-filter_by (leaves group_of inp d) left old in
              subst (IsTrue inp d) (sym e) (leaves-IsTrue inp d v was h)
        ]

  judge-IsTrue :
      (inp : Input) (d : Deletion) (l : Leftover)
      → In d (cr_deletions inp)
      → In l (judge group_of inp d).violations
      → IsJudged inp d × IsTrue inp d l
  unfolding judge
  judge-IsTrue inp d l at m =
      by (cleaned_by inp d.deadline) refl (faulted inp d.at d.deadline) refl
        (observed inp d.deadline) refl m
    where
      by :
          (a : Bool)
          → cleaned_by inp d.deadline ≡ a
          → (b : Bool) → faulted inp d.at d.deadline ≡ b
          → (c : Bool) → observed inp d.deadline ≡ c
          → In l (judged d (note_taken group_of inp d) (leftovers group_of inp d) a b c).violations
          → IsJudged inp d × IsTrue inp d l
      by true p b q c r m = elim m [ ]
      by false p true q c r m = elim m [ ]
      by false p false q false r m = elim m [ ]
      by false p false q true r m = ((at, p, q, r), leftovers-IsTrue inp d l m)

  judge_all-IsTrue :
      (inp : Input) (ds : List Deletion) (l : Leftover)
      → ((d : Deletion) → In d ds → In d (cr_deletions inp))
      → In l (judge_all group_of inp ds).violations
      → (d : Deletion) × IsJudged inp d × IsTrue inp d l
  unfolding judge_all
  judge_all-IsTrue inp [] l all m = elim m [ ]
  judge_all-IsTrue inp (d ∷ ds) l all m =
      elim (In-append_split (judge group_of inp d).violations (judge_all group_of inp ds).violations
        m) [
          | inl k ↦ let (j, t) = judge-IsTrue inp d l (all d (here refl)) k in (d, j, t)
          | inr k ↦ judge_all-IsTrue inp ds l (λ d' k'. all d' (there k')) k
        ]

  pub violation-IsTrue :
      (inp : Input) (l : Leftover)
      → In l (clean_deletion group_of inp).violations
      → (d : Deletion) × IsJudged inp d × IsTrue inp d l
  unfolding clean_deletion
  violation-IsTrue inp l m = judge_all-IsTrue inp (cr_deletions inp) l (λ d k. k) m
