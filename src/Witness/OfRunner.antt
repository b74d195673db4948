-- ===== src/Witness/OfRunner.antt =====
-- A run on a live run whose every call succeeds, and whose second checkpoint finds a violation.
use botbox.Base.{
  ℕ, true, false, none, some, List, [], ◌∷◌, ◌≡◌, refl, map, take, length, nat_eq, if◌then◌else◌,
}
use botbox.Base.Int.{pos}
use botbox.Base.Action.{Result, ok, err}
use botbox.Json.{end}
use botbox.Run.Sequence.{OpType, Op}
use botbox.Run.Runner.{Violation, Findings, RunTarget, Input, State, Harness, Libraries}
use botbox.Run.Runner.Ops.{find_resource}
use botbox.Run.Runner.Apply.{apply_ops}
use botbox.Run.Runner.Down.{run_sequence, start_of}
use botbox.Run.Runner.Judged.{WasFound}
use botbox.Run.Runner.Judged.Ops.{Ran, apply_ops-Ran}
use botbox.Run.Runner.Judged.Down.{run_sequence-Judged}
use botbox.Proxy.Fault
use botbox.Witness.Recorded.{widgets, new}

abbrev exact : Fault.Libraries
exact = record {
  Fraction = ℕ;
  Rand = ℕ;
  match_glob = λ p n. some true;
  new_rand = λ seed id. 0;
  is_share = λ x. false;
  draw_misses = λ r x. (false, r);
}

abbrev lib : Libraries
lib = record {
  get_name = λ obj. "w";
  gvk_of = λ obj. widgets;
  equal_fold = λ a b. false;
  of_proxy = exact;
  share = λ bits. bits;
  whole = 0;
}

abbrev violation : Violation
violation = record { id = "G2"; statement = "no churn"; at = 4; evidence = "" }

abbrev checked : Input → Result (Unit {0}) Findings
checked inp = ok (record {
  violations = if nat_eq (length inp.timeline.checkpoints) 2 then violation ∷ [] else [];
  notes = [];
})

abbrev smooth : Harness
smooth = record {
  Error = Unit;
  namespace = "ns";
  now = λ w. length w;
  polls = λ w. 1;
  settle = λ w. (true, none);
  sleep = λ w. none;
  restart = λ w. none;
  new_fault = λ w. 0;
  fault_window = λ w id. record { first = 0; retired = 0 };
  held = λ w t. (false, 0);
  served_resources = λ w. ok [];
  create_cr = λ w. none;
  patch_cr = λ w. none;
  delete_cr = λ w. none;
  await_cr_gone = λ w. (true, none);
  managed_objects = λ w gvk. [];
  delete_managed = λ w. (true, none);
  patch_fixture = λ w. none;
  delete_fixture = λ w. none;
  create_fixture = λ w. none;
  managed_count = λ w. 0;
  await_clean = λ w. (true, none);
  force_finalizers = λ w. ([], none);
  empty = λ w. none;
  requests = λ w. [];
  objects = λ w. new;
  is_running = λ w. true;
  exits = λ w. [];
  stop = λ w. none;
  unresolved_owners = λ w. [];
  is_refusal = λ e. false;
  check = checked;
  expired_wait = λ inp c. err tt;
}

abbrev toy : RunTarget
toy = record {
  judged = record {
    primary = widgets;
    not_recreated = [];
    timeouts = record { settle = pos 10; stable = pos 3; delete = pos 10 };
    thresholds = record { err_loop = pos 0; quiet = pos 0 };
  };
  manages = [];
  cluster_fixtures = [];
  sample_name = "w";
  settle = 10;
  stable = 3;
  delete = 10;
  fixtures = [];
}

abbrev op_of : ℕ → OpType → Op
op_of i type = record {
  index = pos i;
  type = type;
  cr = "";
  kind = "";
  nth = none;
  name = "";
  obj = some end;
  patch = none;
  fault = none;
  until = none;
  no_settle = false;
}

abbrev planned : List Op
planned = op_of 0 OpType.create ∷ op_of 1 OpType.settle ∷ op_of 2 OpType.settle ∷ []

abbrev at_start : State
at_start = record { runner = start_of lib toy "ns"; world = [] }

apply_ops-Ran_example :
    Ran lib smooth toy 500 [] planned
      (apply_ops lib smooth toy 500 planned at_start).0
      (apply_ops lib smooth toy 500 planned at_start).1
unfolding start_of
apply_ops-Ran_example = apply_ops-Ran lib smooth toy 500 planned [] at_start (refl, tt)

run_sequence-Judged_example :
    let ran = run_sequence smooth toy 500 lib planned at_start in
    (n : ℕ) × (map (λ a. a.op) ran.1.runner.timeline.ops ≡ take n planned)
    × WasFound smooth toy ran.1.runner.timeline.checkpoints ran.1.runner.violation
run_sequence-Judged_example = run_sequence-Judged lib smooth toy 500 planned []

meant_test :
    find_resource
      (λ a b. true)
      "configmap"
      (record { name = "configmaps"; singular_name = "configmap" } ∷ [])
      ""
    ≡ (false, "configmaps")
unfolding find_resource
meant_test = refl
