-- ===== src/Witness/Recorded.antt =====
-- Runs as recorded: a Widget and the ConfigMap that it owns. The first ends with both left behind, in the
-- second the ConfigMap is deleted and never comes back.
use botbox.Base.{ℕ, String, true, false, none, some, Option, List, [], ◌∷◌}
use botbox.Base.Int.{pos}
use botbox.Json.{Fields, end}
use botbox.Clock.{Time}
use botbox.Observe.{GroupVersionKind, Key, Version}
use botbox.Observe.Store.{Store, new_store, record_version}
use botbox.Run.Sequence.{OpType}
use botbox.Run.Settle.Readiness.{Evaluated, holds}
use botbox.Invariant.{Input, Op, Checkpoint, converged, expired, zero_key}

abbrev pub no_group : String → String
no_group v = ""

abbrev pub never_ready : Fields → Evaluated
never_ready obj = holds false

abbrev pub widgets : GroupVersionKind
widgets = record { group = ""; version = "v1"; kind = "Widget" }

abbrev pub config_maps : GroupVersionKind
config_maps = record { group = ""; version = "v1"; kind = "ConfigMap" }

abbrev pub widget : Key
widget = record { gvk = widgets; namespace = "ns"; name = "w" }

abbrev pub settings : Key
settings = record { gvk = config_maps; namespace = "ns"; name = "settings" }

abbrev pub widget_at : String → Time → Option Time → Version
widget_at rv time deleting = record {
  key = widget;
  uid = "u1";
  resource_version = rv;
  time = time;
  generation = pos 1;
  observed_generation = none;
  finalizers = "f" ∷ [];
  owner_references = [];
  deletion_timestamp = deleting;
  labels = [];
  deleted = false;
  object = end;
}

abbrev pub settings_at : String → Time → Version
settings_at rv time = record (widget_at rv time none) {
  key = settings;
  uid = "u2";
  finalizers = [];
  owner_references = record { api_version = "v1"; kind = "Widget"; uid = "u1" } ∷ [];
}

abbrev pub settings_gone : String → Time → Version
settings_gone rv time = record (settings_at rv time) { deleted = true }

abbrev pub new : Store
new = new_store (record {
  namespace = "ns";
  manages = config_maps ∷ [];
  resource_of = λ gvk. none;
  selector = none;
})

abbrev pub recorded : List Version → Store
recorded [] = new
recorded (v ∷ vs) = record_version v (recorded vs)

abbrev pub op : ℕ → OpType → Time → Key → Op
op i type time deleted = record {
  index = pos i;
  type = type;
  time = time;
  deleted = deleted;
  cr = widget;
  restored = false;
}

-- Newest first: the Widget is under deletion from 20 on.
abbrev pub left_behind : Store
left_behind =
    recorded (widget_at "3" 20 (some 20) ∷ settings_at "2" 12 ∷ widget_at "1" 10 none ∷ [])

abbrev pub deleting : Input
deleting = record {
  target = record {
    primary = widgets;
    not_recreated = [];
    timeouts = record { settle = pos 10; stable = pos 5; delete = pos 5 };
    thresholds = record { err_loop = pos 1; quiet = pos 1 };
  };
  requests = [];
  history = some left_behind;
  ops = op 0 OpType.create 8 zero_key ∷ op 1 OpType.delete 19 zero_key ∷ [];
  checkpoints = [];
  faults = [];
  exits = [];
  teardown = 0;
  quiet = 0;
  cleaned = 0;
  end = 70;
}

abbrev pub lost : Store
lost = recorded (settings_gone "3" 31 ∷ settings_at "2" 12 ∷ widget_at "1" 10 none ∷ [])

abbrev pub waited : Checkpoint
waited = record {
  op = pos 1;
  began = 30;
  time = 40;
  settle = expired;
  stayed = false;
  held = false;
}

abbrev pub losing : Input
losing = record deleting {
  history = some lost;
  ops = op 0 OpType.create 8 zero_key ∷ op 1 OpType.delete_managed 30 settings ∷ [];
  checkpoints =
      record { op = pos 0; began = 8; time = 25; settle = converged; stayed = false; held = false }
      ∷ waited
      ∷ [];
}
