-- ===== src/Invariant/Deletion/Clean.antt =====
-- `CleanDeletion` (G3) of internal/invariant/g3.go, and `leftBy` of attribution.go. The two
-- states that statesAt gives are written as those of stateAt.
pub mod Answers
pub mod Verdict
pub mod Exact
use botbox.Base.{
  ℕ, String, Bool, true, false, not, ◌&&◌, ◌||◌, Option, none, some, List, [], ◌∷◌, ◌++◌, map, ◌==◌,
  String-eq, any, filter_by, contains, if◌then◌else◌, is_some,
}
use botbox.Base.Map.{Map, lookup, insert}
use botbox.Clock.{Time, after}
use botbox.Observe.{Key, Key-eq, Version}
use botbox.Invariant.{Input, Op, observed, faulted}
use botbox.Invariant.State.{State, state_at, states_at, version, managed}
use botbox.Invariant.Attribution.{named_crs, is_empty, crs, holds}
use botbox.Invariant.Deletion.{Deletion, cr_deletions, cleaned_by, held, history_of}

-- `versionAt`: the last in the order recorded.
abbrev last_by : Time → List Version → Option Version → Option Version
last_by t [] found = found
last_by t (v ∷ vs) found = last_by t vs (if not (after v.time t) then some v else found)

unfoldable pub version_at : Input → Key → Time → Option Version
version_at inp key t = last_by t (history_of inp.history key) none

-- The map `later` of `leftBy`.
unfoldable due_later : Deletion → List Deletion → Map String Bool → Map String Bool
due_later d [] m = m
due_later d (other ∷ ds) m = due_later d ds (insert other.uid (after other.deadline d.deadline) m)

abbrev pub or_false : Option Bool → Bool
or_false none = false
or_false (some b) = b

-- The map `had` of `reportLeftovers`.
unfoldable uids_of : List Version → Map Key String → Map Key String
uids_of [] m = m
uids_of (v ∷ vs) m = uids_of vs (insert v.key v.uid m)

abbrev is_same : Option String → String → Bool
is_same none uid = false
is_same (some had) uid = had == uid

-- What G3 reports of a deletion: the CR that its finalizers hold, or an object still there.
pub data Leftover : Type 0 where
  finalizers : Deletion → Leftover
  object : Deletion → Version → Leftover

-- What it notes: an object that an op took, or why it judges nothing.
pub data Note : Type 0 where
  took : Deletion → Op → Note
  was_faulted : Deletion → Note
  ended_early : Deletion → Note

pub record Result : Type 0 where
  pub violations : List Leftover
  pub notes : List Note

-- The switch of `CleanDeletion`, by cleanedBy, faulted and observed.
abbrev judged : Deletion → List Note → List Leftover → Bool → Bool → Bool → Result
judged d notes found true was_active seen = record { violations = []; notes = notes }
judged d notes found false true seen = record {
  violations = [];
  notes = notes ++ was_faulted d ∷ [];
}
judged d notes found false false false = record {
  violations = [];
  notes = notes ++ ended_early d ∷ [];
}
judged d notes found false false true = record { violations = found; notes = notes }

module _ (group_of : String → String) where
  -- The CR claims the object too, and is there or due later.
  unfoldable pub keeps : Input → Deletion → Version → State → State → Version → Bool
  unfolding due_later named_crs holds
  keeps inp d v then_state now_state cr =
      not (cr.uid == d.uid)
      && ((contains (named_crs group_of inp v) cr.uid
            || (is_empty (named_crs group_of inp v) && holds then_state cr.uid))
          && (holds now_state cr.uid
              || or_false (lookup cr.uid (due_later d (cr_deletions inp) []))))

  -- `leftBy`
  unfoldable pub left_by : Input → Deletion → Version → State → State → Bool
  left_by inp d v then_state now_state =
      if not (is_empty (named_crs group_of inp v))
        && not (contains (named_crs group_of inp v) d.uid)
      then false
      else not (
          any (crs then_state inp.target.primary ++ crs now_state inp.target.primary)
            (keeps inp d v then_state now_state))

  -- An op that took an object of the deleted CR in its time.
  abbrev takes : Input → Deletion → State → State → Op → Option Version → Option Version → Bool
  takes inp d had since o none found = false
  takes inp d had since o (some was) none = false
  takes inp d had since o (some was) (some taken) =
      after o.time d.at
      && (not (after o.time d.deadline) && (taken.uid == was.uid && left_by inp d taken had since))

  -- `noteWhatReconcilerFuzzerTook`
  unfoldable pub note_taken : Input → Deletion → List Note
  unfolding version_at left_by
  note_taken inp d =
      let had = state_at inp d.at in
      let since = state_at inp d.deadline in
      map (took d) (
        filter_by
          (λ o. takes inp d had since o (version had o.deleted) (version_at inp o.deleted o.time))
          inp.ops)

  -- An object there at the deadline that the CR had, and is to answer for.
  unfoldable pub leaves : Input → Deletion → Version → Bool
  unfolding left_by uids_of
  leaves inp d v =
      let had = state_at inp d.at in
      let since = state_at inp d.deadline in
      is_same (lookup v.key (uids_of (managed had inp) [])) v.uid && left_by inp d v had since

  -- `reportLeftovers`
  unfoldable pub leftovers : Input → Deletion → List Leftover
  unfolding leaves
  leftovers inp d =
      let since = state_at inp d.deadline in
      (if held since d then finalizers d ∷ [] else [])
      ++ map (object d) (filter_by (leaves inp d) (managed since inp))

  -- One round of `CleanDeletion`: what it reports and notes of one deletion.
  unfoldable pub judge : Input → Deletion → Result
  unfolding leftovers note_taken
  judge inp d =
      judged d (note_taken inp d) (leftovers inp d) (cleaned_by inp d.deadline)
        (faulted inp d.at d.deadline) (observed inp d.deadline)

  unfoldable judge_all : Input → List Deletion → Result
  unfolding judge
  judge_all inp [] = record { violations = []; notes = [] }
  judge_all inp (d ∷ ds) =
      let rest = judge_all inp ds in
      record {
        violations = (judge inp d).violations ++ rest.violations;
        notes = (judge inp d).notes ++ rest.notes;
      }

  -- `CleanDeletion`
  unfoldable pub clean_deletion : Input → Result
  unfolding judge_all
  clean_deletion inp = judge_all inp (cr_deletions inp)
