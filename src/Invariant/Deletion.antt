-- ===== src/Invariant/Deletion.antt =====
-- internal/invariant/deletion.go and g3.go: the deletions of CRs, what a settle wait owes them, and the
-- objects they leave.
pub mod Clean
pub mod Distinct
pub mod Owed
use botbox.Base.{
  ℕ, ◌+◌, String, Bool, true, false, not, ◌&&◌, ◌||◌, Option, none, some, List, [], ◌∷◌, ◌++◌, map,
  ◌==◌, String-eq, ℕ-eq, any, filter_by, find?, contains, if◌then◌else◌, is_some, length, get_last?,
}
use botbox.Base.Map.{Map, lookup, insert}
use botbox.Clock.{Time, is_zero, before, after, later}
use botbox.Observe.{Key, Key-eq, GroupVersionKind, GroupVersionKind-eq, Version}
use botbox.Observe.Store.{Store}
use botbox.Observe.Store
use botbox.Invariant.{
  Input, Checkpoint, Op, settle_timeout, delete_timeout, end_of, observed, faulted,
}
use botbox.Invariant.State.{State, state_at, version, managed}
use botbox.Invariant.Attribution.{named_crs, crs, holds}
use botbox.Invariant.Running.{restart_owed}
use botbox.Invariant.Recovery.{owed, recovering}

pub record Deletion : Type 0 where
  pub key : Key
  pub uid : String
  pub at : Time
  pub deadline : Time

abbrev pub is_going : Version → Bool
is_going v = is_some v.deletion_timestamp || v.deleted

abbrev pub deletion_of : Input → Version → Deletion
deletion_of inp v = record {
  key = v.key;
  uid = v.uid;
  at = v.time;
  deadline = v.time + delete_timeout inp;
}

-- The loop of `crDeletionsBy`, with the UIDs seen.
unfoldable pub deletions_from : Input → List String → List Version → List Deletion
unfolding delete_timeout
deletions_from inp seen [] = []
deletions_from inp seen (v ∷ vs) =
    let skip = deletions_from inp seen vs in
    let next = deletions_from inp (v.uid ∷ seen) vs in
    if contains seen v.uid || not (is_going v) then skip else deletion_of inp v ∷ next

abbrev pub versions_of : Option Store → GroupVersionKind → Time → List Version
versions_of none gvk t = []
versions_of (some s) gvk t = Store.versions_of s gvk t

-- `crDeletionsBy`
unfoldable pub cr_deletions_by : Input → Time → List Deletion
unfolding deletions_from
cr_deletions_by inp t = deletions_from inp [] (versions_of inp.history inp.target.primary t)

-- `crDeletions`
unfoldable pub cr_deletions : Input → List Deletion
unfolding cr_deletions_by
cr_deletions inp = cr_deletions_by inp (end_of inp)

abbrev pub history_of : Option Store → Key → List Version
history_of none key = []
history_of (some s) key = Store.history s key

abbrev pub time_of : Option Version → Option Time
time_of none = none
time_of (some v) = some v.time

-- `goneBy`
unfoldable pub gone_by : Input → Deletion → Time → Option Time
gone_by inp d t = time_of (
    find? (history_of inp.history d.key)
      (λ v. v.uid == d.uid && (v.deleted && not (after v.time t))))

-- One round of `deletionOwed`.
abbrev pub owed_for : Input → Deletion → Option Time → Time
owed_for inp d none = d.deadline
owed_for inp d (some gone) =
    if not (after gone d.deadline) then gone + settle_timeout inp else d.deadline

abbrev pub owed_of : Input → Time → List Deletion → Time → Time
owed_of inp t [] until = until
owed_of inp t (d ∷ ds) until = owed_of inp t ds (later until (owed_for inp d (gone_by inp d t)))

-- `deletionOwed`
unfoldable pub deletion_owed : Input → Time → Time
unfolding gone_by
deletion_owed inp t = owed_of inp t (cr_deletions_by inp t) 0

-- `WaitOwed`
unfoldable pub wait_owed : Input → Time → Time
unfolding deletion_owed
wait_owed inp t = later (later (owed inp t) (restart_owed inp t)) (deletion_owed inp t)

-- `heldByDeletion`
unfoldable pub held_by_deletion : Input → Checkpoint → Bool
unfolding gone_by
held_by_deletion inp c = any (cr_deletions_by inp c.time) (λ d.
    not (is_some (gone_by inp d c.time))
    && (after d.deadline (c.began + settle_timeout inp) && not (after d.deadline c.time)))

abbrev pub is_held : Deletion → Option Version → Bool
is_held d none = false
is_held d (some cr) = cr.uid == d.uid && not (length cr.finalizers == 0)

-- `held`
unfoldable pub held : State → Deletion → Bool
held s d = is_held d (version s d.key)

-- `DeletionOverdue`
unfoldable pub deletion_overdue : Input → Checkpoint → Bool
unfolding held
deletion_overdue inp c = any (cr_deletions_by inp c.time) (λ d.
    not (after d.deadline c.time || faulted inp d.at d.deadline)
    && held (state_at inp (later d.deadline c.began)) d)

-- `Excused`
unfoldable pub excused : Input → Checkpoint → Bool
unfolding deletion_overdue
excused inp c = recovering inp c.time || deletion_overdue inp c

-- `cleanedBy`
unfoldable pub cleaned_by : Input → Time → Bool
cleaned_by inp t = not (is_zero inp.cleaned) && not (after inp.cleaned t)
