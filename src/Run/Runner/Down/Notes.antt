-- ===== src/Run/Runner/Down/Notes.antt =====
-- internal/run/runner.go: the notes that a run has of the target's exits and of what it was forbidden, and
-- the result of the run.
use text.Mathlib.Text.{starts_with}
use Prim.Native.String
use botbox.Base.{
  String, Bool, not, ◌&&◌, Option, none, some, List, [], ◌∷◌, ◌++◌, map, ◌==◌, ℕ-eq, String-eq,
  if◌then◌else◌, any,
}
use botbox.Clock.{Time, before, after}
use botbox.Proxy.Request.{Request}
use botbox.Run.Sequence.{Op}
use botbox.Run.Runner.{AppliedOp, Exit, Runner}

-- What a run was doing: the teardown, or the op it had applied last, if there was one.
pub data During : Type 0 where
  the_teardown : During
  after_op : Option Op → During

abbrev last_by : Time → List AppliedOp → Option Op → Option Op
last_by t [] last = last
last_by t (a ∷ ops) last = last_by t ops (if not (after a.at t) then some a.op else last)

-- `during`
unfoldable pub during : Runner → Time → During
during r t =
    if not (before t r.teardown_start)
    then the_teardown
    else after_op (last_by t r.timeline.ops none)

-- `exitNotes`
unfoldable pub exit_notes : Runner → List (During × Exit)
unfolding during
exit_notes r = map (λ e. (during r e.at, e)) r.timeline.exits

-- `Forbidden` of internal/proxy/request.go
unfoldable pub forbidden : Request → Bool
forbidden r = r.status == 403 && not (starts_with r.fault "error(")

-- The pair of a request, in `forbiddenNotes`.
abbrev pub asked_for : Request → String × String
asked_for r = (
  r.verb,
  (if r.subresource == ""
      then r.resource
      else String.◌++◌ r.resource (String.◌++◌ "/" r.subresource)),
)

abbrev pub pair_eq : String × String → String × String → Bool
pair_eq p q = p.0 == q.0 && p.1 == q.1

-- `forbiddenNotes`: the pairs in order, each once.
unfoldable pub forbidden_from : List Request → List (String × String) → List (String × String)
unfolding forbidden
forbidden_from [] pairs = pairs
forbidden_from (r ∷ rs) pairs = forbidden_from rs (
    if forbidden r && not (any pairs (pair_eq (asked_for r)))
    then pairs ++ asked_for r ∷ []
    else pairs)

unfoldable pub forbidden_notes : List Request → List (String × String)
unfolding forbidden_from
forbidden_notes requests = forbidden_from requests []
