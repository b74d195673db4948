-- ===== src/Generate.antt =====
-- internal/generate/generate.go: the sequences that are drawn. Here the state that says what op may come
-- next; Checkpointed has the waits that leave the ops judged, and Faulted the fault among them. The draws
-- themselves, and the values from a CRD's schema, are another library's.
pub mod Checkpointed
pub mod Faulted
use Prim.Native.String
use botbox.Base.{
  has_any, ℕ, zero, suc, String, Bool, true, false, not, ◌&&◌, Option, none, some, List, [], ◌∷◌,
  ◌++◌, ◌==◌, String-eq, if◌then◌else◌, length, ltb, map, filter_by, contains, update,
}
use botbox.Json.{Fields, Value, field, end, obj}
use botbox.Observe.{GroupVersionKind, kind_name}
use botbox.Run.Merge.{merge_patch}
use botbox.Run.Sequence.{OpType, Op, settles}
use botbox.Run.Sequence.Validate.{fixture}

-- target.MutableFixture, without its paths.
pub record MutableFixture : Type 0 where
  pub gvk : GroupVersionKind
  pub name : String

-- `Generator`, what the choice of an op reads.
pub record Generator : Type 0 where
  pub has_fields : Bool
  pub managed : List String
  pub fixtures : List MutableFixture
  pub updatable : List MutableFixture
  pub max_crs : ℕ

pub record DrawnCr : Type 0 where
  pub object : Fields
  pub live : Bool

-- `state`
pub record State : Type 0 where
  pub crs : List DrawnCr
  pub gone : List String

-- `live`, from position `n` on.
unfoldable pub live_from : ℕ → List DrawnCr → List ℕ
live_from n [] = []
live_from n (cr ∷ crs) = let rest = live_from (suc n) crs in if cr.live then n ∷ rest else rest

unfoldable pub live : State → List ℕ
unfolding live_from
live at = live_from 0 at.crs

-- `present`
unfoldable pub present : Generator → State → List MutableFixture
present g at =
    filter_by (λ f. not (contains at.gone (String.◌++◌ (kind_name f.gvk) (String.◌++◌ " " f.name))))
      g.fixtures

abbrev only_if : Bool → OpType → List OpType
only_if true t = t ∷ []
only_if false t = []

-- `legal`
unfoldable pub legal : Generator → State → List OpType
unfolding live present
legal g at =
    let is_live = has_any (live at) in
    OpType.settle
    ∷ OpType.restart
    ∷ (only_if (is_live && g.has_fields) OpType.update
        ++ (only_if (has_any g.updatable) OpType.update_fixture
            ++ (only_if (is_live && has_any g.managed) OpType.delete_managed
                ++ (only_if (has_any (present g at)) OpType.delete_fixture
                    ++ (OpType.recreate ∷ [])
                    ++ (only_if is_live OpType.delete
                        ++ only_if (ltb (length at.crs) g.max_crs) OpType.create)))))

abbrev object_of : Option Fields → Fields
object_of none = end
object_of (some o) = o

-- The switch of `advance`, for an op on the CR at `n`.
unfoldable pub advance_by : OpType → Op → ℕ → State → State
advance_by OpType.create o n at = record at {
  crs = at.crs ++ record { object = object_of o.obj; live = true } ∷ [];
}
advance_by OpType.delete o n at = record at {
  crs = update at.crs n (λ cr. record cr { live = false });
}
advance_by OpType.recreate o n at = record at {
  crs = update at.crs n (λ cr. record { object = object_of o.obj; live = true });
}
advance_by OpType.update o n at = record at {
  crs = update at.crs n (λ cr. record cr { object = merge_patch cr.object (object_of o.patch) });
}
advance_by OpType.delete_fixture o n at = record at { gone = at.gone ++ fixture o ∷ [] }
advance_by _ o n at = at

-- `advance`
unfoldable pub advance : Op → ℕ → State → State
unfolding advance_by
advance o n at =
    let acted = advance_by o.type o n at in if settles o then record acted { gone = [] } else acted

-- `nest`, of a path of at least one key.
unfoldable pub nest : String → List String → Value → Fields
nest key [] value = field key value end
nest key (k ∷ ks) value = field key (obj (nest k ks value)) end
