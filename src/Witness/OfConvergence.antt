-- ===== src/Witness/OfConvergence.antt =====
-- A run whose ConfigMap never comes back, whose Widget is never ready, and the differences of a Restart.
use botbox.Observe.{Version}
use botbox.Invariant.Restart.Reach.{touches, reached, reach_from, reach_of}
use botbox.Invariant.Restart.Reach.Spared.{IsSpared, touches-IsSpared}
use botbox.Base.{◌↔◌, false, ℕ, ◌≡◌, refl, none, some, List, [], ◌∷◌, In, length, min, arith}
use botbox.Base.Map.{lookup, insert}
use botbox.Observe.{kind_name}
use botbox.Observe.Store.{record_version, latest, positions, history, window}
use mathlib.Core.List.{filter_map}
use botbox.Run.Sequence.{OpType}
use botbox.Invariant.{
  zero_key, op_of, changes_run, gives_input, touches_cr, on_fixture, faulted, overlaps, observed,
  versions, versions_in, end_of, settle_timeout,
}
use botbox.Invariant.State.{state_at, version}
use botbox.Invariant.Attribution.{crs, named_crs, asked_for}
use botbox.Invariant.Running.{restart_owed, last_restart}
use botbox.Invariant.Window.{Excerpt, torn_down}
use botbox.Invariant.Recovery.{
  owed, recreate_owed, last_converged, excused_exit, next_converged, next_converged_in, exits_owed,
  faults_owed, counts_exit, fault_span, last_converged_in, stopped_since,
}
use botbox.Invariant.Restart.{changes_between, changed_between}
use botbox.Invariant.Restart.Spread.{Share, spread}
use botbox.Invariant.Restart.Spread.Fair.{given, all_of, firsts, kepts, IsShared, spread-IsShared}
use botbox.Invariant.Deletion.Clean.{version_at}
use botbox.Invariant.Healing.{or_zero_op, heal, self_healing, still_starting, stopped}
use botbox.Invariant.Healing.Lost.{IsLost, self_healing-IsLost}
use botbox.Invariant.Convergence.{
  Anchor, of_op, late, late_from, converge_anchors, passes_over, judge_crs,
}
use botbox.Invariant.Convergence.Late.{IsLate}
use botbox.Invariant.Convergence.Exact.{late-IsLate}
use botbox.Witness.Recorded.{no_group, never_ready, widget_at, settings_at, losing, waited, op}

self_healing_test : self_healing no_group losing ≡ waited ∷ []
unfolding self_healing heal op_of version state_at versions versions_in window record_version latest
    positions lookup insert end_of kind_name asked_for crs named_crs history filter_map version_at
    changed_between changes_between changes_run still_starting stopped last_restart faulted
    recreate_owed owed exits_owed faults_owed counts_exit fault_span last_converged
    last_converged_in stopped_since settle_timeout overlaps touches_cr on_fixture
self_healing_test = refl

self_healing-IsLost_example : In waited (self_healing no_group losing) ↔ (
    In waited losing.checkpoints
    × IsLost no_group losing waited (or_zero_op (op_of losing waited.op)))
self_healing-IsLost_example = self_healing-IsLost no_group losing waited

abbrev first_deadline : Anchor
first_deadline = record { at = 8; deadline = 18; what = of_op (op 0 OpType.create 8 zero_key) }

late_test : (late never_ready losing).found ≡ (first_deadline, widget_at "1" 10 none) ∷ []
unfolding late late_from judge_crs passes_over converge_anchors crs state_at versions versions_in
    window record_version latest positions lookup insert end_of kind_name gives_input observed
    faulted overlaps excused_exit torn_down next_converged next_converged_in restart_owed
    settle_timeout owed exits_owed faults_owed counts_exit fault_span last_converged
    last_converged_in stopped_since
late_test = refl

no_failure : (late never_ready losing).failed ≡ false
unfolding late late_from judge_crs passes_over converge_anchors crs state_at versions versions_in
    window record_version latest positions lookup insert end_of kind_name gives_input observed
    faulted overlaps excused_exit torn_down next_converged next_converged_in restart_owed
    settle_timeout owed exits_owed faults_owed counts_exit fault_span last_converged
    last_converged_in stopped_since
no_failure = refl

late-IsLate_example :
    In (first_deadline, widget_at "1" 10 none) (late never_ready losing).found
    ↔ IsLate never_ready losing first_deadline (widget_at "1" 10 none)
late-IsLate_example =
    late-IsLate never_ready losing first_deadline (widget_at "1" 10 none) no_failure

abbrev three_and_one : List (List ℕ)
three_and_one = (1 ∷ 2 ∷ 3 ∷ []) ∷ (4 ∷ []) ∷ []

spread-IsShared_example :
    (e : Excerpt ℕ) × (ss : List (Share ℕ)) × (spread 30 three_and_one ≡ some e)
    × (given ss ≡ three_and_one)
    × (e.total ≡ length (all_of three_and_one))
    × (e.quoted ≡ firsts (kepts ss) three_and_one)
    × (length e.quoted ≡ min e.total 20)
    × IsShared ss (length e.quoted)
spread-IsShared_example = spread-IsShared 30 three_and_one (omega arith)

-- A ConfigMap of another Widget, which no op acts on.
abbrev other_settings : Version
other_settings = record (settings_at "9" 9) {
  uid = "u8";
  owner_references = record { api_version = "v1"; kind = "Widget"; uid = "u9" } ∷ [];
}

untouched : touches no_group losing (reached no_group losing losing.ops) other_settings ≡ false
unfolding touches reached reach_from reach_of version_at named_crs history record_version latest
    positions lookup insert on_fixture filter_map
untouched = refl

touches-IsSpared_example : IsSpared no_group losing losing.ops other_settings
touches-IsSpared_example = touches-IsSpared no_group losing losing.ops other_settings untouched
