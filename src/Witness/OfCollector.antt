-- ===== src/Witness/OfCollector.antt =====
-- A sweep over two objects: the owner of one is gone, that of the other is there.
use botbox.Base.{
  String, Bool, true, false, Option, none, some, List, [], ◌∷◌, ◌++◌, ◌≡◌, ◌≢◌, ◌↔◌, refl, All, In,
  map, ◌==◌, String-eq, if◌then◌else◌,
}
use botbox.Base.Map.{lookup, insert}
use botbox.Observe.{GroupVersionKind, kind_name}
use botbox.Cluster.Collector.{
  GroupVersionResource, Meta, Object, Owners, Libraries, group_kind, collectible, collectible_from,
  resolve, key_of, gone,
}
use botbox.Cluster.Collector.Gone.{IsGone, collectible-IsGone}
use botbox.Cluster.Collector.Loop.{
  Loop, Phase, Step, Runs, started, notify, take, list, again, Runs-IsSwept,
}
use botbox.Cluster.Collector.Sweep.{
  found, refused, Preconditions, Call, Api, delete, Collector, sweep, live_owners, read_objects,
  read_refs, sweep_objects, sweep_one, delete_object_of, note_unresolved, result_of, log_failure,
}
use botbox.Cluster.Collector.Sweep.Spares.{WasDue, sweep-WasDue}
use botbox.Cluster.Collector.Sweep.Tries.{Try, sent, as_sent, told_by, as_told, to_go}
use botbox.Cluster.Collector.Sweep.Deletes.{sweep-deletes}

abbrev widget : GroupVersionKind
widget = record { group = "example.com"; version = "v1"; kind = "Widget" }

abbrev widgets : GroupVersionResource
widgets = record { group = "example.com"; version = "v1"; resource = "widgets" }

abbrev lib : Libraries
lib = record {
  kind_of = λ api_version kind. record { group = "example.com"; version = "v1"; kind = kind };
  rest_mapping =
      λ kind version. some (record { kind = widget; resource = widgets; is_namespaced = true });
}

-- Get finds the object "here", with the uid "h", and no other. The context does not end.
abbrev api : Api
api = record {
  Error = Bool;
  is_not_found = λ e. e;
  is_conflict = λ e. false;
  has_ended = λ w. false;
  now = λ w. 7;
  get_object = λ w r n. if n == "here" then found "h" else refused true;
  delete_object = λ w r n p. none;
}

abbrev owned_by : String → String → Meta
owned_by name uid = record {
  name = name;
  namespace = "ns";
  uid = name;
  resource_version = "1";
  deletion_timestamp = none;
  owner_references =
      record { api_version = "example.com/v1"; kind = "Widget"; name = uid; uid = "h" } ∷ [];
}

abbrev dependent : String → String → Object
dependent name owner = record { kind = widget; resource = widgets; meta = owned_by name owner }

abbrev swept : List Object
swept = dependent "left" "lost" ∷ dependent "kept" "here" ∷ []

abbrev collector : Collector Bool
collector = record {
  namespace = "ns";
  watched = (group_kind widget, record { kind = widget; resource = widgets }) ∷ [];
  unresolved = [];
  deletions = [];
}

-- The one object is deleted, the other is not.
sweep_test : map (λ d. d.name) (sweep lib api swept collector []).0.deletions ≡ "left" ∷ []
unfolding sweep live_owners read_objects read_refs sweep_objects sweep_one delete_object_of
    collectible collectible_from resolve key_of gone note_unresolved result_of log_failure lookup
    insert kind_name
sweep_test = refl

sweep-WasDue_example :
    (calls : List (Call Bool)) × ((sweep lib api swept collector []).1 ≡ calls ++ [])
    × ((resource : GroupVersionResource) (name : String) (conditions : Preconditions)
          (answer : Option Bool)
        → In (delete resource name conditions answer) calls
        → WasDue api lib swept collector.watched calls resource name conditions)
sweep-WasDue_example = sweep-WasDue api lib swept collector []

abbrev live : Owners
live = (live_owners lib api swept collector.watched []).0

collectible-IsGone_example : ((collectible lib live (dependent "left" "lost")).0 ≡ true) ↔ (
    ((owned_by "left" "lost").owner_references ≢ [])
    × All (IsGone lib live) (owned_by "left" "lost").owner_references)
collectible-IsGone_example = collectible-IsGone lib live (dependent "left" "lost")

sweep-deletes_example :
    let end = sweep lib api swept collector [] in
    (tries : List (Try api)) × (map (λ t. t.0) tries ≡ to_go lib live swept)
    × (sent end.1 ≡ map (as_sent api) tries)
    × (map (told_by api) end.0.deletions ≡ map (as_told api lib "ns" live) tries)
sweep-deletes_example = sweep-deletes api lib (λ w. refl) swept collector []

-- An event, its sweep, and an event while it sweeps.
abbrev before : Loop
before = again (list (take (notify (again (list (take (notify started)))))))

runs : Runs started before
unfolding notify take list again
runs =
    Runs.next
      (Runs.next
        (Runs.next
          (Runs.next
            (Runs.next
              (Runs.next (Runs.next (Runs.next Runs.here (Step.event _)) (Step.request _ refl refl))
                (Step.lists _ refl))
              (Step.swept _ refl))
            (Step.event _))
          (Step.request _ refl refl))
        (Step.lists _ refl))
      (Step.swept _ refl)

is_waiting : before.phase ≡ Phase.waiting
unfolding again
is_waiting = refl

is_served : before.pending ≡ false
unfolding notify take list again
is_served = refl

Runs-IsSwept_example : before.listed ≡ before.events
Runs-IsSwept_example = Runs-IsSwept runs is_waiting is_served
