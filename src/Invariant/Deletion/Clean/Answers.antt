-- ===== src/Invariant/Deletion/Clean/Answers.antt =====
-- The objects that `leftBy` gives a deleted CR to answer for.
use botbox.Base.{
  String, Bool, true, false, Option, none, some, List, [], ◌∷◌, ◌++◌, ◌==◌, ◌≡◌, ◌≢◌, refl, sym, ap,
  ◌∙◌, String-eq, arith, find?, contains, Bool-cases, ◌⊎◌, inl, inr, In, here, there, any-none,
  none-any, find?-In, ◌≤◌, ◌&&◌,
}
use botbox.Base.Map.{Map, lookup, insert, lookup-insert}
use botbox.Base.Ascending.{IsOnly}
use botbox.Clock.{after}
use botbox.Observe.{Key-eq, Version}
use botbox.Invariant.{Input, end_of}
use botbox.Invariant.State.{state_at}
use botbox.Invariant.Attribution.{named_crs, is_empty, crs, holds}
use botbox.Invariant.Deletion.{Deletion, cr_deletions}
use botbox.Invariant.Deletion.Distinct.{cr_deletions_by-first}
use botbox.Invariant.Deletion.Clean.{due_later, or_false, keeps, left_by}

abbrev or_else_of : Deletion → Option Deletion → Option Bool → Option Bool
or_else_of d none found = found
or_else_of d (some o) found = some (after o.deadline d.deadline)

lookup-due_later :
    (d : Deletion) (uid : String) (ds : List Deletion) (m : Map String Bool)
    → IsOnly (λ o. o.uid == uid) ds
    → lookup uid (due_later d ds m) ≡ or_else_of d (find? ds (λ o. o.uid == uid)) (lookup uid m)
unfolding due_later
lookup-due_later d uid [] m h = refl
lookup-due_later d uid (o ∷ ds) m (one, h) =
    let here_ = lookup-insert o.uid uid (after o.deadline d.deadline) m in
    lookup-due_later d uid ds (insert o.uid (after o.deadline d.deadline) m) h ∙ ground arith

abbrev pub IsLast : Input → Deletion → String → Type 0
IsLast inp d uid =
    (other : Deletion) → In other (cr_deletions inp) → other.uid ≡ uid → other.deadline ≤ d.deadline

In-find? :
    {uid : String} {o : Deletion} (ds : List Deletion)
    → IsOnly (λ d. d.uid == uid) ds
    → In o ds
    → o.uid ≡ uid
    → find? ds (λ d. d.uid == uid) ≡ some o
In-find? [] h m e = elim m [ ]
In-find? {uid = uid} {o = o} (d ∷ ds) (one, h) (here q) e =
    let same = String-eq.equals_iff d.uid uid in
    let under : d.uid ≡ uid = ap (λ x. x.uid) (sym q) ∙ e in
    let is : some d ≡ some o = ap some (sym q) in ground arith
In-find? {uid = uid} (d ∷ ds) (one, h) (there m) e = let ih = In-find? ds h m e in ground arith

due_later-IsLast :
    (inp : Input) (d : Deletion) (uid : String)
    → or_false (lookup uid (due_later d (cr_deletions inp) [])) ≡ false
    → IsLast inp d uid
unfolding cr_deletions lookup
due_later-IsLast inp d uid h other m e =
    let one = (cr_deletions_by-first inp (end_of inp) uid).1 in
    let found = In-find? (cr_deletions inp) one m e in
    let is = lookup-due_later d uid (cr_deletions inp) [] one in ground arith

IsLast-due_later :
    (inp : Input) (d : Deletion) (uid : String)
    → IsLast inp d uid
    → or_false (lookup uid (due_later d (cr_deletions inp) [])) ≡ false
unfolding cr_deletions lookup
IsLast-due_later inp d uid last =
    ap or_false
      (lookup-due_later d uid (cr_deletions inp) [] (cr_deletions_by-first inp (end_of inp) uid).1)
    ∙ by (find? (cr_deletions inp) (λ o. o.uid == uid)) refl
  where
    by :
        (o : Option Deletion)
        → find? (cr_deletions inp) (λ x. x.uid == uid) ≡ o
        → or_false (or_else_of d o none) ≡ false
    by none q = refl
    by (some o) q =
        let (m, e) = find?-In (cr_deletions inp) (λ x. x.uid == uid) q in
        let le = last o m ((String-eq.equals_iff o.uid uid).0 e) in ground arith

module _ (group_of : String → String) where
  -- The object names the CR or no CR, and each other CR that it may belong to is gone at the deadline
  -- and due no later.
  pub record Answers (inp : Input) (d : Deletion) (v : Version) : Type 0 where
    pub its :
        (is_empty (named_crs group_of inp v) ≡ true)
        ⊎ (contains (named_crs group_of inp v) d.uid ≡ true)
    pub alone :
        (cr : Version)
        → In cr (
            crs (state_at inp d.at) inp.target.primary
            ++ crs (state_at inp d.deadline) inp.target.primary)
        → cr.uid ≢ d.uid
        → (contains (named_crs group_of inp v) cr.uid ≡ true)
          ⊎ ((is_empty (named_crs group_of inp v) ≡ true)
              × (holds (state_at inp d.at) cr.uid ≡ true))
        → (holds (state_at inp d.deadline) cr.uid ≡ false) × IsLast inp d cr.uid

  keeps-not :
      (inp : Input) (d : Deletion) (v cr : Version)
      → keeps group_of inp d v (state_at inp d.at) (state_at inp d.deadline) cr ≡ false
      → cr.uid ≢ d.uid
      → (contains (named_crs group_of inp v) cr.uid ≡ true)
        ⊎ ((is_empty (named_crs group_of inp v) ≡ true) × (holds (state_at inp d.at) cr.uid ≡ true))
      → (holds (state_at inp d.deadline) cr.uid ≡ false) × IsLast inp d cr.uid
  unfolding keeps
  keeps-not inp d v cr h other claims =
      let same = String-eq.equals_iff cr.uid d.uid in
      let differs : (cr.uid == d.uid) ≡ false = elim (Bool-cases (cr.uid == d.uid)) [
        | inl e ↦ absurd (other (same.0 e))
        | inr e ↦ e
      ] in
      (ground arith, due_later-IsLast inp d cr.uid (ground arith))

  pub left_by-Answers :
      (inp : Input) (d : Deletion) (v : Version)
      → left_by group_of inp d v (state_at inp d.at) (state_at inp d.deadline) ≡ true
      → Answers inp d v
  unfolding left_by
  left_by-Answers inp d v h = record {
    its = elim (Bool-cases (is_empty (named_crs group_of inp v))) [
      | inl e ↦ inl e
      | inr e ↦ inr (ground arith)
    ];
    alone = λ cr m other claims.
        keeps-not inp d v cr
          (any-none (keeps group_of inp d v (state_at inp d.at) (state_at inp d.deadline))
            (ground arith) m)
          other claims;
  }

  Answers-keeps :
      (inp : Input) (d : Deletion) (v cr : Version)
      → Answers inp d v
      → In cr (
          crs (state_at inp d.at) inp.target.primary
          ++ crs (state_at inp d.deadline) inp.target.primary)
      → keeps group_of inp d v (state_at inp d.at) (state_at inp d.deadline) cr ≡ false
  unfolding keeps
  Answers-keeps inp d v cr answers m =
      let named = named_crs group_of inp v in
      let had = holds (state_at inp d.at) cr.uid in
      let same = String-eq.equals_iff cr.uid d.uid in
      elim (Bool-cases (cr.uid == d.uid)) [
        | inl e ↦ ground arith
        | inr e ↦
            let other : cr.uid ≢ d.uid = λ q. let e' = same.1 q in ground arith in
            elim (Bool-cases (contains named cr.uid)) [
              | inl c ↦
                  let (gone, last) = answers.alone cr m other (inl c) in
                  let not_later = IsLast-due_later inp d cr.uid last in ground arith
              | inr c ↦ elim (Bool-cases (is_empty named && had)) [
                | inl c' ↦
                    let (gone, last) =
                      answers.alone cr m other (inr (ground arith, ground arith)) in
                    let not_later = IsLast-due_later inp d cr.uid last in ground arith
                | inr c' ↦ ground arith
              ]
            ]
      ]

  pub Answers-left_by :
      (inp : Input) (d : Deletion) (v : Version)
      → Answers inp d v
      → left_by group_of inp d v (state_at inp d.at) (state_at inp d.deadline) ≡ true
  unfolding left_by
  Answers-left_by inp d v answers =
      let none_keeps =
        none-any
          (crs (state_at inp d.at) inp.target.primary
            ++ crs (state_at inp d.deadline) inp.target.primary)
          (keeps group_of inp d v (state_at inp d.at) (state_at inp d.deadline))
          (λ cr m. Answers-keeps inp d v cr answers m) in
      let its = answers.its in ground arith
