-- ===== src/Witness/OfInvariant.antt =====
-- A run in which the target's writes fail, and a quiet window in which it keeps writing.
use botbox.Base.{true, false, ◌⊎◌, inl, here}
use botbox.Invariant.{FaultWindow}
use botbox.Invariant.Window.Undisturbed.{Reached, IsUndisturbed, quiet_windows-IsUndisturbed}
use botbox.Invariant.Recovery.{stopped_since, last_converged, last_converged_in, owed, recovering}
use botbox.Invariant.Recovery.Span.{fair_time, recovering-fair}
use botbox.Invariant.Recovery.Over.{EndedBy, recovering-over}
use botbox.Invariant.Running.{electing, back}
use botbox.Invariant.Running.Earliest.{IsBack, back-IsBack}
use botbox.Base.{
  ℕ, ◌≡◌, ◌≤◌, refl, false, none, List, [], ◌∷◌, All, any, all, ltb, leb, length, is_some, arith,
}
use botbox.Base.Int.{pos}
use botbox.Base.Sort.{sort_by}
use botbox.Proxy.Request.{Request}
use botbox.Run.Sequence.{OpType}
use botbox.Invariant.{
  Input, converged, zero_key, observed, faulted, stable_timeout, settle_timeout, err_loop,
  quiet_allowance,
}
use botbox.Invariant.Window.{quiet_windows, settle_end, torn_down, after_op}
use botbox.Invariant.ErrorLoop.{starts_before, RequestKey, judge, densest}
use botbox.Invariant.ErrorLoop.Densest.{bursts, longest, densest_lem}
use botbox.Invariant.ErrorLoop.Verdict.{judge_lem}
use botbox.Invariant.Quiet.{requests_in, bounded_reconciliation}
use botbox.Base.{some}
use botbox.Invariant.Window.{Quiet}
use botbox.Observe.Store
use botbox.Base.Map.{lookup}
use botbox.Invariant.{versions, versions_in, end_of}
use botbox.Invariant.Running.{writes}
use botbox.Json.{end}
use botbox.Observe.{GroupVersionKind, Version}
use botbox.Invariant.Quiet.{changes_in}
use botbox.Invariant.Quiet.Blame.{IsBlamed, changes_in-IsBlamed}
use botbox.Invariant.Quiet.Verdict.{counting, is_nil, IsExcess, bounded_reconciliation_lem}

abbrev patch_at : ℕ → Request
patch_at t = record {
  start = t;
  verb = "patch";
  group = "";
  version = "v1";
  resource = "configmaps";
  subresource = "";
  namespace = "ns";
  name = "settings";
  path = "/api/v1/namespaces/ns/configmaps/settings";
  watch = false;
  status = 500;
  latency = 0;
  fault = "";
}

abbrev patches : List Request
patches = patch_at 30 ∷ patch_at 42 ∷ patch_at 45 ∷ []

-- A settle wait that converges at 40, and a stable time of 20.
abbrev inp : Input
inp = record {
  target = record {
    primary = record { group = ""; version = "v1"; kind = "Widget" };
    not_recreated = [];
    timeouts = record { settle = pos 10; stable = pos 20; delete = pos 5 };
    thresholds = record { err_loop = pos 1; quiet = pos 1 };
  };
  requests = patches;
  history = none;
  ops =
      record {
        index = pos 0;
        type = OpType.create;
        time = 25;
        deleted = zero_key;
        cr = zero_key;
        restored = false;
      }
      ∷ [];
  checkpoints =
      record { op = pos 0; began = 25; time = 40; settle = converged; stayed = false; held = false }
      ∷ [];
  faults = [];
  exits = [];
  teardown = 0;
  quiet = 0;
  cleaned = 0;
  end = 70;
}

densest_lem_example :
    (densest patches 10 ≡ longest [] (bursts 10 [] patches))
    × All (λ (b : List Request). length b ≤ length (densest patches 10)) (bursts 10 [] patches)
densest_lem_example = densest_lem 10 patches (omega arith, (omega arith, (omega arith, tt)))

abbrev on_settings : RequestKey
on_settings = record {
  verb = "patch";
  group = "";
  resource = "configmaps";
  subresource = "";
  namespace = "ns";
  name = "settings";
}

judge_lem_example :
    is_some (judge inp (record { key = on_settings; requests = sort_by starts_before patches }))
    ≡ any
        (bursts (settle_timeout inp) [] (sort_by starts_before patches))
        (λ b. ltb (err_loop inp) (length b))
judge_lem_example = judge_lem inp on_settings patches

bounded_reconciliation_lem_example :
    (is_nil (bounded_reconciliation inp)
      ≡ all (quiet_windows inp) (λ w. leb (length (counting inp w)) (quiet_allowance inp)))
    × All (IsExcess inp) (bounded_reconciliation inp)
bounded_reconciliation_lem_example = bounded_reconciliation_lem inp

quiet_windows_test :
    quiet_windows inp ≡ record { what = after_op (pos 0); start = 40; end = 60 } ∷ []
unfolding quiet_windows settle_end observed stable_timeout faulted torn_down
quiet_windows_test = refl

reached : Reached 25 (settle_end inp (pos 0))
unfolding settle_end
reached = omega arith

quiet_windows-IsUndisturbed_example : All (IsUndisturbed inp inp.ops) (quiet_windows inp)
quiet_windows-IsUndisturbed_example =
    quiet_windows-IsUndisturbed inp (omega arith, reached, tt) (inl refl, tt)

-- The proxy failed requests from 41 to 50, after the target converged at 40.
abbrev failing : FaultWindow
failing = record { start = 41; end = 50 }

abbrev faulty : Input
faulty = record inp { faults = failing ∷ [] }

stopped_test : stopped_since 55 (last_converged faulty 55) failing ≡ true
unfolding stopped_since last_converged last_converged_in
stopped_test = refl

recovering-fair_example :
    (fair_time faulty (last_converged faulty 55) failing ≤ owed faulty 55)
    × ((recovering faulty 55 ≡ true) ⊎ (fair_time faulty (last_converged faulty 55) failing ≤ 55))
recovering-fair_example = recovering-fair faulty 55 (omega arith, tt) (here refl) stopped_test

-- It failed them from 26 to 30, and the target converged at 40.
abbrev passed : Input
passed = record inp { faults = record { start = 26; end = 30 } ∷ [] }

ended_test : EndedBy (last_converged passed 55) passed.faults
unfolding last_converged last_converged_in
ended_test = ((omega arith, omega arith), tt)

recovering-over_example : (owed passed 55 ≡ 0) × (recovering passed 55 ≡ false)
recovering-over_example = recovering-over passed 55 ended_test

back-IsBack_example : IsBack patches 35 (electing patches) (back patches 35)
back-IsBack_example = back-IsBack patches 35

abbrev config_map : GroupVersionKind
config_map = record { group = ""; version = "v1"; kind = "ConfigMap" }

-- The store recorded at 43 what the patch at 42 made.
abbrev patched_settings : Version
patched_settings = record {
  key = record { gvk = config_map; namespace = "ns"; name = "settings" };
  uid = "u1";
  resource_version = "2";
  time = 43;
  generation = pos 2;
  observed_generation = none;
  finalizers = [];
  owner_references = [];
  deletion_timestamp = none;
  labels = [];
  deleted = false;
  object = end;
}

abbrev recorded_run : Input
recorded_run = record inp {
  history = some (record {
    opts = record {
      namespace = "ns";
      manages = config_map ∷ [];
      resource_of = λ k. some (record { group = ""; resource = "configmaps" });
      selector = none;
    };
    versions = patched_settings ∷ [];
    by_key = (patched_settings.key, 0 ∷ []) ∷ [];
    excluded = [];
  });
}

abbrev first_window : Quiet
first_window = record { what = after_op (pos 0); start = 40; end = 60 }

changes_in_test : changes_in recorded_run first_window ≡ patched_settings ∷ []
unfolding changes_in versions versions_in Store.window end_of Store.is_managed Store.positions
    lookup requests_in writes Store.resource
changes_in_test = refl

changes_in-IsBlamed_example :
    All (IsBlamed recorded_run first_window) (changes_in recorded_run first_window)
changes_in-IsBlamed_example = changes_in-IsBlamed recorded_run first_window
