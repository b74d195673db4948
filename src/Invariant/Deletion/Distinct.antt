-- ===== src/Invariant/Deletion/Distinct.antt =====
-- The deletions that crDeletionsBy lists, by UID.
use botbox.Base.{
  String, Bool, not, ◌&&◌, ◌||◌, Option, none, some, List, [], ◌∷◌, ◌==◌, ◌≡◌, ap, String-eq, arith,
  if◌then◌else◌, if-cases, find?, contains,
}
use botbox.Base.Ascending.{IsOnly}
use botbox.Clock.{Time}
use botbox.Observe.{Version}
use botbox.Invariant.{Input}
use botbox.Invariant.Deletion.{
  Deletion, is_going, deletion_of, deletions_from, versions_of, cr_deletions_by,
}

-- The first version of the UID that is deleted or under deletion.
abbrev pub first_going : String → List Version → Option Version
first_going uid vs = find? vs (λ v. v.uid == uid && is_going v)

abbrev pub as_deletion : Input → Option Version → Option Deletion
as_deletion inp none = none
as_deletion inp (some v) = some (deletion_of inp v)

abbrev unless : Bool → Option Deletion → Option Deletion
unless b o = if b then none else o

deletions_from-find :
    (inp : Input) (uid : String) (seen : List String) (vs : List Version)
    → find? (deletions_from inp seen vs) (λ d. d.uid == uid)
      ≡ unless (contains seen uid) (as_deletion inp (first_going uid vs))
unfolding deletions_from
deletions_from-find inp uid seen [] = ground arith
deletions_from-find inp uid seen (v ∷ vs) =
    let same = String-eq.equals_iff v.uid uid in
    let moved = λ (q : v.uid ≡ uid). ap (contains seen) q in
    if-cases
      (λ l.
        find? l (λ d. d.uid == uid)
        ≡ unless (contains seen uid) (as_deletion inp (first_going uid (v ∷ vs))))
      (contains seen v.uid || not (is_going v)) (deletions_from inp seen vs)
      (deletion_of inp v ∷ deletions_from inp (v.uid ∷ seen) vs)
      (λ e. let ih = deletions_from-find inp uid seen vs in ground arith)
      (λ e. let ih = deletions_from-find inp uid (v.uid ∷ seen) vs in ground arith)

deletions_from-IsOnly :
    (inp : Input) (uid : String) (seen : List String) (vs : List Version)
    → IsOnly (λ d. d.uid == uid) (deletions_from inp seen vs)
unfolding deletions_from
deletions_from-IsOnly inp uid seen [] = tt
deletions_from-IsOnly inp uid seen (v ∷ vs) =
    let found = deletions_from-find inp uid (v.uid ∷ seen) vs in
    if-cases (IsOnly (λ d. d.uid == uid)) (contains seen v.uid || not (is_going v))
      (deletions_from inp seen vs) (deletion_of inp v ∷ deletions_from inp (v.uid ∷ seen) vs)
      (λ e. deletions_from-IsOnly inp uid seen vs)
      (λ e. ((λ q. ground arith), deletions_from-IsOnly inp uid (v.uid ∷ seen) vs))

-- By t the run has at most one deletion of each UID: that of the first version of a primary CR of this
-- UID, in the order recorded, that is deleted or under deletion, and none where there is no such
-- version. Its deadline is timeouts.delete after that version.
pub cr_deletions_by-first :
    (inp : Input) (t : Time) (uid : String)
    → (find? (cr_deletions_by inp t) (λ d. d.uid == uid)
        ≡ as_deletion inp (first_going uid (versions_of inp.history inp.target.primary t)))
      × IsOnly (λ d. d.uid == uid) (cr_deletions_by inp t)
unfolding cr_deletions_by
cr_deletions_by-first inp t uid =
    let vs = versions_of inp.history inp.target.primary t in
    (deletions_from-find inp uid [] vs, deletions_from-IsOnly inp uid [] vs)
