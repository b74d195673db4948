-- ===== src/Run/Runner.antt =====
-- internal/run/runner.go: the Runner, which executes one sequence. Here its state and the live run that it
-- drives, `harness`, which answers from the calls made so far, latest first.
pub mod Engine
pub mod Waits
pub mod Ops
pub mod Apply
pub mod Down
pub mod Core
pub mod Judged
use botbox.Base.{
  ℕ, String, Bool, true, false, Option, none, some, List, [], ◌∷◌, ◌++◌, update, length,
}
use botbox.Base.Int.{ℤ}
use botbox.Base.Map.{Map}
use botbox.Base.Action.{Action, Result, ok, err}
use botbox.Clock.{Time}
use botbox.Json.{Fields}
use botbox.Proxy.Request.{Request}
use botbox.Proxy.Fault
use botbox.Observe.{GroupVersionKind}
use botbox.Observe.Store.{Store}
use botbox.Cluster.Collector.{Unresolved}
use botbox.Invariant.{Target}
use botbox.Run.Sequence
use botbox.Run.Sequence.{Op}

pub record Window : Type 0 where
  pub start : Time
  pub end : Time

pub record Wait : Type 0 where
  pub window : Window
  pub converged : Bool

pub record AppliedOp : Type 0 where
  pub op : Op
  pub at : Time
  pub cr : String
  pub deleted : String
  pub restored : Bool
  pub settled : Option Wait

pub record Checkpoint : Type 0 where
  pub at : Time
  pub began : Time
  pub op : ℤ
  pub converged : Bool
  pub stayed : Bool
  pub held : Bool

-- `Exit`. Its text is `why`.
pub record Exit : Type 0 where
  pub at : Time
  pub restart : Time
  pub why : String

pub record Timeline : Type 0 where
  pub namespace : String
  pub ops : List AppliedOp
  pub checkpoints : List Checkpoint
  pub recovery : Option Wait
  pub quiet : Window
  pub deletion : Window
  pub cleaned : Time
  pub faults : List Window
  pub forced : List String
  pub exits : List Exit

pub record Violation : Type 0 where
  pub id : String
  pub statement : String
  pub at : Time
  pub evidence : String

pub record Findings : Type 0 where
  pub violations : List Violation
  pub notes : List String

-- What the Runner reads of a target: what the checks read, with the kinds, the sample's name and its
-- timeouts, which are above 0 in a target that was loaded.
pub record RunTarget : Type 0 where
  pub judged : Target
  pub manages : List GroupVersionKind
  pub cluster_fixtures : List GroupVersionKind
  pub sample_name : String
  pub settle : ℕ
  pub stable : ℕ
  pub delete : ℕ
  pub fixtures : List Fields

-- `Input`, but for the target.
pub record Input : Type 0 where
  pub requests : List Request
  pub objects : Store
  pub timeline : Timeline

pub record HeldFault : Type 0 where
  pub id : ℕ
  pub until : Option ℤ
  pub window : ℕ
  pub retired : Bool

-- A note, in the place of its text.
pub data Note : Type 0 where
  of_no_request : ℤ → Note
  deleted_nothing : Op → ℕ → Note
  gone_before : Op → String → Note
  stopped_run : Op → Wait → Note
  force_removed : List String → Note
  kept_for : Unresolved → Note

-- `runner`, its fields that change.
pub record Runner : Type 0 where
  pub timeline : Timeline
  pub violation : Option Violation
  pub notes : List String
  pub skipped : List Note
  pub failed : Bool
  pub stopped : Bool
  pub converged : Time
  pub teardown_start : Time
  pub crs : List String
  pub faults : List HeldFault
  pub fault_ops : List ℤ
  pub fixtures : Map String Fields
  pub deleted : List Op

-- metav1.APIResource
pub record ApiResource : Type 0 where
  pub name : String
  pub singular_name : String

-- A call of the live run. `looked` is one that changes nothing: time goes by.
pub data Call : Type 0 where
  looked clear_faults supervise stop empty force_finalizers restart : Call
  settle : Time → Call
  sleep : ℕ → Call
  add_fault : Sequence.Fault → Call
  remove_fault : ℕ → Call
  create_cr : Fields → Call
  patch_cr : String → Fields → Call
  delete_cr await_cr_gone : String → Call
  delete_managed delete_fixture : GroupVersionKind → String → Call
  patch_fixture : GroupVersionKind → String → Fields → Call
  create_fixture : Fields → Call
  await_clean : ℕ → Call

abbrev pub World : Type 0
World = List Call

-- What the package takes from libraries: an object's GetName and GroupVersionKind, strings.EqualFold, and
-- the proxy's.
pub record Libraries : Type 1 where
  pub get_name : Fields → String
  pub gvk_of : Fields → GroupVersionKind
  pub equal_fold : String → String → Bool
  pub of_proxy : Fault.Libraries
  pub share : ℕ → Fault.Libraries.Fraction of_proxy
  pub whole : Fault.Libraries.Fraction of_proxy

-- `harness`, with the Checker and ExpiredWait of the engine. `polls` is how often the wait that begins
-- calls the function that it was given. The proxy gets a fault as `spec` of Ops makes it.
pub record Harness : Type 1 where
  pub Error : Type 0
  pub namespace : String
  pub now : World → Time
  pub polls : World → ℕ
  pub settle : World → Bool × Option Error
  pub sleep : World → Option Error
  pub restart : World → Option Error
  pub new_fault : World → ℕ
  pub fault_window : World → ℕ → Fault.FaultWindow
  pub held : World → Time → Bool × Time
  pub served_resources : World → Result Error (List ApiResource)
  pub create_cr : World → Option Error
  pub patch_cr : World → Option Error
  pub delete_cr : World → Option Error
  pub await_cr_gone : World → Bool × Option Error
  pub managed_objects : World → GroupVersionKind → List String
  pub delete_managed : World → Bool × Option Error
  pub patch_fixture : World → Option Error
  pub delete_fixture : World → Option Error
  pub create_fixture : World → Option Error
  pub managed_count : World → ℕ
  pub await_clean : World → Bool × Option Error
  pub force_finalizers : World → List String × Option Error
  pub empty : World → Option Error
  pub requests : World → List Request
  pub objects : World → Store
  pub is_running : World → Bool
  pub exits : World → List Exit
  pub stop : World → Option Error
  pub unresolved_owners : World → List Unresolved
  pub is_refusal : Error → Bool
  pub check : Input → Result Error Findings
  pub expired_wait : Input → Checkpoint → Result Error Violation

-- Why a run ends with an error. `panics` is a nil pointer or an index out of range.
pub data RunError (E : Type 0) : Type 0 where
  harness : E → RunError E
  refused : Op → E → RunError E
  target_stopped : RunError E
  too_many_managed : ℕ → RunError E
  no_fixture cluster_scoped not_managed not_an_op_type : Op → RunError E
  not_served : String → RunError E
  stayed : String → Wait → RunError E
  in_op : Op → RunError E → RunError E
  panics : RunError E

pub record State : Type 0 where
  pub runner : Runner
  pub world : World

-- A method of the Runner.
abbrev pub Method : Type 0 → Type 0 → Type 0
Method E A = Action State (RunError E) A

module _ {E : Type 0} where
  -- A call of the live run, which answers by the calls before it.
  unfoldable pub look : {A : Type 0} → (World → A) → Method E A
  look f s = (ok (f s.world), record s { world = looked ∷ s.world })

  unfoldable pub call : {A : Type 0} → Call → (World → A) → Method E A
  call c f s = (ok (f s.world), record s { world = c ∷ s.world })

  abbrev pub failed : Option E → Result (RunError E) (Unit {0})
  failed none = ok tt
  failed (some e) = err (harness e)

  unfoldable pub try : Call → (World → Option E) → Method E (Unit {0})
  try c f s = (failed (f s.world), record s { world = c ∷ s.world })

  -- A call that may fail, and its error as a value.
  abbrev pub answered : {A : Type 0} → A × Option E → Result (RunError E) A
  answered (a, none) = ok a
  answered (a, some e) = err (harness e)

  unfoldable pub try_get : {A : Type 0} → Call → (World → A × Option E) → Method E A
  try_get c f s = (answered (f s.world), record s { world = c ∷ s.world })

  abbrev pub lifted : {A : Type 0} → Result E A → Result (RunError E) A
  lifted (ok a) = ok a
  lifted (err e) = err (harness e)

  unfoldable pub lift : {A : Type 0} → (World → Result E A) → Method E A
  lift f s = (lifted (f s.world), record s { world = looked ∷ s.world })

  unfoldable pub runner_of : Method E Runner
  runner_of s = (ok s.runner, s)

  unfoldable pub change : (Runner → Runner) → Method E (Unit {0})
  change f s = (ok tt, record s { runner = f s.runner })

abbrev pub on_timeline : (Timeline → Timeline) → Runner → Runner
on_timeline f r = record r { timeline = f r.timeline }

abbrev pub zero_window : Window
zero_window = record { start = 0; end = 0 }
