-- ===== src/Witness/OfDeletion.antt =====
-- A run whose Widget is held by its finalizers past its deadline, with the ConfigMap that it owns.
use botbox.Base.{◌↔◌, ◌≡◌, ◌≤◌, ◌⊎◌, refl, not, none, [], ◌∷◌, map, String-eq, In, arith}
use botbox.Base.Keyed.{if_kept}
use botbox.Base.Map.{lookup, insert}
use botbox.Clock.{Time}
use botbox.Observe.{kind_name}
use botbox.Observe.Store.{
  versions_of as recorded_of, record_version, latest, positions, history, is_managed,
  version_is_managed, window,
}
use mathlib.Core.List.{filter_map}
use botbox.Invariant.{versions, versions_in, end_of, faulted, observed, overlaps}
use botbox.Invariant.Attribution.{crs, holds, named_crs}
use botbox.Invariant.State.{states_at, state_at, version, managed}
use botbox.Invariant.State.Replay.{states_at-state_at}
use botbox.Invariant.State.Serves.{last_seen, version-state_at}
use botbox.Invariant.Running.{restart_owed}
use botbox.Invariant.Recovery.{owed}
use botbox.Invariant.Deletion.{Deletion, cleaned_by, cr_deletions_by, cr_deletions, wait_owed, held}
use botbox.Invariant.Deletion.Owed.{Allows, wait_owed-IsLatest}
use botbox.Invariant.Deletion.Clean.{
  judge, leaves, left_by, leftovers, note_taken, keeps, finalizers, object, clean_deletion,
}
use botbox.Invariant.Deletion.Clean.Verdict.{IsJudged, IsTrue}
use botbox.Invariant.Deletion.Clean.Exact.{clean_deletion-IsTrue}
use botbox.Witness.Recorded.{no_group, widget, settings, settings_at, deleting}

abbrev of_widget : Deletion
of_widget = record { key = widget; uid = "u1"; at = 20; deadline = 25 }

states_at-state_at_example :
    states_at deleting (15 ∷ 20 ∷ 25 ∷ []) ≡ map (state_at deleting) (15 ∷ 20 ∷ 25 ∷ [])
states_at-state_at_example =
    states_at-state_at deleting 15 (20 ∷ 25 ∷ []) (omega arith, (omega arith, tt))

version-state_at_example :
    version (state_at deleting 25) settings
    ≡ if_kept (λ v. not v.deleted) (last_seen settings 25 (versions deleting) none)
version-state_at_example = version-state_at deleting settings 25

wait_owed-IsLatest_example :
    (owed deleting 30 ≤ wait_owed deleting 30)
    × (restart_owed deleting 30 ≤ wait_owed deleting 30)
    × ((d : Deletion)
        → In d (cr_deletions_by deleting 30)
        → (until : Time) × Allows deleting 30 d until × (until ≤ wait_owed deleting 30))
    × ((wait_owed deleting 30 ≡ owed deleting 30)
        ⊎ (wait_owed deleting 30 ≡ restart_owed deleting 30)
        ⊎ ((d : Deletion) × In d (cr_deletions_by deleting 30)
            × Allows deleting 30 d (wait_owed deleting 30)))
wait_owed-IsLatest_example = wait_owed-IsLatest deleting 30

deletions_test : cr_deletions deleting ≡ of_widget ∷ []
unfolding cr_deletions recorded_of record_version latest positions lookup insert end_of
deletions_test = refl

violations_test :
    (clean_deletion no_group deleting).violations
    ≡ finalizers of_widget ∷ object of_widget (settings_at "2" 12) ∷ []
unfolding clean_deletion judge leftovers leaves left_by keeps note_taken cr_deletions recorded_of
    record_version latest positions lookup insert end_of cleaned_by faulted observed overlaps held
    version state_at managed is_managed version_is_managed versions versions_in window kind_name crs
    holds named_crs history filter_map
violations_test = refl

clean_deletion-IsTrue_example :
    In (object of_widget (settings_at "2" 12)) (clean_deletion no_group deleting).violations ↔ (
      (d : Deletion) × IsJudged deleting d
      × IsTrue no_group deleting d (object of_widget (settings_at "2" 12)))
clean_deletion-IsTrue_example =
    clean_deletion-IsTrue no_group deleting (object of_widget (settings_at "2" 12))
