-- ===== src/Invariant/Deletion/Owed.antt =====
-- What a settle wait is owed.
use mathlib.Core.Option.{some-injective}
use botbox.Base.{
  ◌≤◌, List, [], ◌∷◌, ◌≡◌, refl, ◌⊎◌, inl, inr, arith, In, here, there, ◌∙◌, Bool-cases, ◌++◌, ◌+◌,
  ◌<◌, ◌&&◌, ◌==◌, Bool, true, false, not, Option, none, some, All, find?, ap, subst, String-eq,
}
use botbox.Clock.{Time, after, later}
use botbox.Observe.{Version}
use botbox.Invariant.{Input, settle_timeout}
use botbox.Invariant.Running.{restart_owed}
use botbox.Invariant.Recovery.{owed}
use botbox.Invariant.Deletion.{
  Deletion, history_of, time_of, gone_by, owed_for, owed_of, cr_deletions_by, deletion_owed,
  wait_owed,
}

-- The latest of what each deletion is owed, and no later.
owed_of-le :
    (inp : Input) (t : Time) (ds : List Deletion) (until : Time) → until ≤ owed_of inp t ds until
owed_of-le inp t [] until = omega arith
owed_of-le inp t (d ∷ ds) until =
    let next = later until (owed_for inp d (gone_by inp d t)) in
    ground (arith, owed_of-le inp t ds next)

owed_for-le :
    (inp : Input) (t : Time) (ds : List Deletion) (until : Time) {d : Deletion}
    → In d ds
    → owed_for inp d (gone_by inp d t) ≤ owed_of inp t ds until
owed_for-le inp t [] until m = elim m [ ]
owed_for-le inp t (d ∷ ds) until (here e) =
    let next = later until (owed_for inp d (gone_by inp d t)) in
    let reached = owed_of-le inp t ds next in
    let le : owed_for inp d (gone_by inp d t) ≤ owed_of inp t ds next = ground arith in rw e le
owed_for-le inp t (d ∷ ds) until (there m) =
    owed_for-le inp t ds (later until (owed_for inp d (gone_by inp d t))) m

abbrev IsOwed : Input → Time → List Deletion → Time → Type 0
IsOwed inp t ds until = (d : Deletion) × In d ds × (until ≡ owed_for inp d (gone_by inp d t))

owed_of-IsOwed :
    (inp : Input) (t : Time) (ds : List Deletion) (until : Time)
    → (owed_of inp t ds until ≡ until) ⊎ IsOwed inp t ds (owed_of inp t ds until)
owed_of-IsOwed inp t [] until = inl refl
owed_of-IsOwed inp t (d ∷ ds) until =
    elim (owed_of-IsOwed inp t ds (later until (owed_for inp d (gone_by inp d t)))) [
      | inr (d', m, e) ↦ inr (d', there m, e)
      | inl e ↦ elim (Bool-cases (after (owed_for inp d (gone_by inp d t)) until)) [
        | inl h ↦ inr (d, here refl, e ∙ ground arith)
        | inr h ↦ inl (e ∙ ground arith)
      ]
    ]

-- This version is of the CR's deletion, and came by t.
abbrev pub is_end : Deletion → Time → Version → Bool
is_end d t v = v.uid == d.uid && (v.deleted && not (after v.time t))

-- The first version of the CR's deletion, where it came by t.
abbrev pub IsFirstEnd : Input → Deletion → Time → Version → Type 0
IsFirstEnd inp d t v =
    (earlier : List Version) × (rest : List Version) × (history_of inp.history d.key
      ≡ earlier ++ v ∷ rest)
    × All (λ w. is_end d t w ≡ false) earlier
    × (is_end d t v ≡ true)

-- What a deletion allows a wait, by t: its deadline where the CR is there still, or went after it, and
-- timeouts.settle from when it went where that was by its deadline.
pub data Allows (inp : Input) (t : Time) (d : Deletion) : Time → Type 0 where
  stays : All (λ w. is_end d t w ≡ false) (history_of inp.history d.key) → Allows inp t d d.deadline
  went_late : (v : Version) → IsFirstEnd inp d t v → d.deadline < v.time → Allows inp t d d.deadline
  went :
      (v : Version)
      → IsFirstEnd inp d t v
      → v.time ≤ d.deadline
      → Allows inp t d (v.time + settle_timeout inp)

module _ (p : Version → Bool) where
  IsFirst : List Version → Version → Type 0
  IsFirst xs v =
      (earlier : List Version) × (rest : List Version) × (xs ≡ earlier ++ v ∷ rest)
      × All (λ w. p w ≡ false) earlier
      × (p v ≡ true)

  find?-IsFirst : (xs : List Version) (v : Version) → find? xs p ≡ some v → IsFirst xs v
  unfolding IsFirst
  find?-IsFirst [] v h = ground arith
  find?-IsFirst (x ∷ xs) v h = elim (Bool-cases (p x)) [
    | inl e ↦
        let same : x ≡ v = some-injective _ _ (rw (e) at h) in
        ([], xs, ap (λ y. y ∷ xs) same, tt, subst (λ y. p y ≡ true) same e)
    | inr e ↦
        let (earlier, rest, is, others, this) = find?-IsFirst xs v (rw (e) at h) in
        (x ∷ earlier, rest, ap (λ l. x ∷ l) is, (e, others), this)
  ]

  find?-none : (xs : List Version) → find? xs p ≡ none → All (λ w. p w ≡ false) xs
  find?-none [] h = tt
  find?-none (x ∷ xs) h = elim (Bool-cases (p x)) [
    | inl e ↦ absurd (ground arith)
    | inr e ↦ (e, find?-none xs (rw (e) at h))
  ]

owed_for-Allows :
    (inp : Input) (t : Time) (d : Deletion) → Allows inp t d (owed_for inp d (gone_by inp d t))
unfolding gone_by IsFirst
owed_for-Allows inp t d = by (find? (history_of inp.history d.key) (is_end d t)) refl
  where
    by :
        (o : Option Version)
        → find? (history_of inp.history d.key) (is_end d t) ≡ o
        → Allows inp t d (owed_for inp d (time_of o))
    by none e = stays (find?-none (is_end d t) _ e)
    by (some v) e =
        let first = find?-IsFirst (is_end d t) _ v e in
        elim (Bool-cases (after v.time d.deadline)) [
          | inl h ↦ rw h (went_late v first (ground arith))
          | inr h ↦ rw h (went v first (ground arith))
        ]

-- A wait that has not converged by t may end no earlier than Owed and restartOwed say, and no earlier
-- than each CR deleted by t allows: its deadline, or timeouts.settle after it went where it went by its
-- deadline. It may end at the latest of these, so no wait is owed more than one of them.
pub wait_owed-IsLatest :
    (inp : Input) (t : Time)
    → (owed inp t ≤ wait_owed inp t)
      × (restart_owed inp t ≤ wait_owed inp t)
      × ((d : Deletion)
          → In d (cr_deletions_by inp t)
          → (until : Time) × Allows inp t d until × (until ≤ wait_owed inp t))
      × ((wait_owed inp t ≡ owed inp t)
          ⊎ (wait_owed inp t ≡ restart_owed inp t)
          ⊎ ((d : Deletion) × In d (cr_deletions_by inp t) × Allows inp t d (wait_owed inp t)))
unfolding wait_owed deletion_owed
wait_owed-IsLatest inp t =
    let ds = cr_deletions_by inp t in
    let until = owed_of inp t ds 0 in
    (
      ground arith,
      ground arith,
      (λ d m. (_, owed_for-Allows inp t d, ground (arith, owed_for-le inp t ds 0 m))),
      elim (Bool-cases (after until (later (owed inp t) (restart_owed inp t)))) [
        | inr h ↦ elim (Bool-cases (after (restart_owed inp t) (owed inp t))) [
          | inl k ↦ inr (inl (ground arith))
          | inr k ↦ inl (ground arith)
        ]
        | inl h ↦ elim (owed_of-IsOwed inp t ds 0) [
          | inl z ↦ absurd (ground arith)
          | inr (d, m, e) ↦
              let latest : owed_for inp d (gone_by inp d t)
                  ≡ later (later (owed inp t) (restart_owed inp t)) until =
                ground arith in
              inr (inr (d, m, subst (Allows inp t d) latest (owed_for-Allows inp t d)))
        ]
      ],
    )
