-- ===== src/Run/Sequence/Validate.antt =====
-- The checks of a sequence: `validate` of ops, faults and sequences, and `validateFixtures`. An error
-- is the case that raised it; `none` is a nil error.
pub mod Fixtures
pub mod Legal
use Prim.Native.Char.{code}
use Prim.Native.String
use botbox.Base.{
  ℕ, ◌+◌, String, Bool, true, false, not, ◌&&◌, ◌||◌, Option, none, some, List, [], ◌∷◌, ◌==◌, ℕ-eq,
  Bool-eq, String-eq, if◌then◌else◌, is_some, contains, length, get_last?, nat_eq,
}
use botbox.Base.Int.{pos, ℤ-eq, ltb_ℤ, leb_ℤ, is_negative}
use botbox.Base.Map.{Map, lookup, insert}
use botbox.Proxy.Request.{verbs}
use botbox.Run.Sequence.{
  OpType, op_type_beq, Fault, Op, Sequence, is_one_of, cr_ops, op_types, settles,
}

-- What the package takes from libraries: whether path.Match accepts a pattern, whether the float64 of
-- these bits lies above 0 and up to 1.
pub record Libraries : Type 0 where
  pub is_glob : String → Bool
  pub is_fraction : ℕ → Bool

pub data FaultError : Type 0 where
  actions : ℕ → FaultError
  unknown_verb slash not_a_glob not_a_fraction not_an_error_status until_not_after : FaultError
  negative_delay negative_count negative_for : FaultError

-- The fields an op may carry, in the order errors report them.
pub data Field : Type 0 where
  obj patch spec kind name index until : Field

pub data OpError : Type 0 where
  unknown_type misplaced carries_no_settle negative_index takes_no_cr zero_trigger : OpError
  needs takes_no : Field → OpError
  in_fault : FaultError → OpError

pub data SequenceError : Type 0 where
  in_op : ℕ → OpError → SequenceError
  no_ops does_not_settle : SequenceError
  acts_on_deleted until_out_of_range : ℕ → SequenceError

abbrev pub op_fields : List Field
op_fields =
    Field.obj ∷ Field.patch ∷ Field.spec ∷ Field.kind ∷ Field.name ∷ Field.index ∷ Field.until ∷ []

-- `err == nil`, and the next check then.
abbrev pub or_else {ℓ} : {E : Type ℓ} → Option E → Option E → Option E
or_else none next = next
or_else (some e) next = some e

-- strings.Contains(s, "/")
has_slash : String → Bool
has_slash String.[] = false
has_slash (String.◌∷◌ c s) = code c == 47 || has_slash s

abbrev count_if : Bool → ℕ
count_if true = 1
count_if false = 0

-- `fieldsOf`
unfoldable pub fields_of : OpType → Field → Bool
fields_of OpType.create Field.obj = true
fields_of OpType.recreate Field.obj = true
fields_of OpType.update Field.patch = true
fields_of OpType.fault Field.spec = true
fields_of OpType.delete_managed Field.kind = true
fields_of OpType.delete_managed Field.index = true
fields_of OpType.update_fixture Field.kind = true
fields_of OpType.update_fixture Field.name = true
fields_of OpType.update_fixture Field.patch = true
fields_of OpType.delete_fixture Field.kind = true
fields_of OpType.delete_fixture Field.name = true
fields_of OpType.delete_fixture Field.until = true
fields_of t f = false

-- `carried` in `validateFields`
unfoldable pub carried : Op → Field → Bool
carried o Field.obj = is_some o.obj
carried o Field.patch = is_some o.patch
carried o Field.spec = is_some o.fault
carried o Field.kind = not (o.kind == "")
carried o Field.name = not (o.name == "")
carried o Field.index = is_some o.nth
carried o Field.until = is_some o.until

-- The loop over the fields: the first that the op carries and its type does not take, or needs.
unfoldable pub check_fields : Op → List Field → Option OpError
check_fields o [] = none
check_fields o (f ∷ fs) =
    if carried o f == fields_of o.type f
    then check_fields o fs
    else if fields_of o.type f
    then some (needs f)
    else some (takes_no f)

abbrev naming_ops : List OpType
naming_ops = OpType.update ∷ OpType.delete ∷ OpType.recreate ∷ []

-- A pointer's value passes the test; nil does not.
abbrev pub holds_of {ℓ} : {A : Type ℓ} → (A → Bool) → Option A → Bool
holds_of p none = false
holds_of p (some a) = p a

-- `validateFields`
unfoldable pub validate_fields : Op → Option OpError
validate_fields o = or_else (check_fields o op_fields) (
    if op_type_beq o.type OpType.delete_managed && holds_of is_negative o.nth
    then some negative_index
    else if not (o.cr == "") && not (is_one_of naming_ops o.type)
    then some takes_no_cr
    else none)

module _ (lib : Libraries) where
  open lib use {is_glob, is_fraction}

  -- `validate` of a fault at this position.
  unfoldable pub validate_fault : Fault → ℕ → Option FaultError
  unfolding has_slash
  validate_fault f position =
      let set =
        count_if (not (f.action.error == pos 0))
        + count_if (not (f.action.delay == pos 0))
        + count_if f.action.drop in
      if not (set == 1)
      then some (actions set)
      else if not (f.match.verb == "") && not (contains verbs f.match.verb)
      then some unknown_verb
      else if has_slash f.match.resource
      then some slash
      else if not (is_glob f.match.name)
      then some not_a_glob
      else if holds_of (λ x. not (is_fraction x)) f.match.fraction
      then some not_a_fraction
      else if not (f.action.error == pos 0)
          && (ltb_ℤ f.action.error (pos 400) || ltb_ℤ (pos 599) f.action.error)
      then some not_an_error_status
      else if holds_of (λ op. leb_ℤ op (pos position)) f.until.op
      then some until_not_after
      else if is_negative f.action.delay
      then some negative_delay
      else if is_negative f.until.count
      then some negative_count
      else if is_negative f.until.for
      then some negative_for
      else none

  abbrev in_fault? : Option FaultError → Option OpError
  in_fault? none = none
  in_fault? (some e) = some (in_fault e)

  abbrev fault_of : Option Fault → ℕ → Option OpError
  fault_of none position = none
  fault_of (some f) position = in_fault? (validate_fault f position)

  -- `validate` of an op at this position.
  unfoldable pub validate_op : Op → ℕ → Option OpError
  validate_op o position =
      if not (is_one_of op_types o.type)
      then some unknown_type
      else if not (o.index == pos position)
      then some misplaced
      else if o.no_settle && not (is_one_of cr_ops o.type)
      then some carries_no_settle
      else or_else (validate_fields o)
          (if op_type_beq o.type OpType.fault then fault_of o.fault position else none)

  abbrev in_op? : ℕ → Option OpError → Option SequenceError
  in_op? i none = none
  in_op? i (some e) = some (in_op i e)

  -- The loop of `validate` over the ops, from position `i` on. `refused` holds what zeroTriggers found.
  unfoldable pub validate_ops : Map ℕ OpError → ℕ → List Op → Option SequenceError
  validate_ops refused i [] = none
  validate_ops refused i (o ∷ ops) =
      or_else (in_op? i (or_else (validate_op o i) (lookup i refused)))
        (validate_ops refused (i + 1) ops)

-- `fixture`
abbrev pub fixture : Op → String
fixture o = String.◌++◌ o.kind (String.◌++◌ " " o.name)

abbrev pub on_fixture : OpType → Bool
on_fixture t = op_type_beq t OpType.update_fixture || op_type_beq t OpType.delete_fixture

-- The op comes back at an op after this position.
abbrev back_after : ℕ → Option Op → Bool
back_after i none = false
back_after i (some deleted) = holds_of (λ until. ltb_ℤ (pos i) until) deleted.until

-- The loop of `validateFixtures`, from position `i` on, over `n` ops in all.
unfoldable pub check_fixtures : ℕ → Map String Op → ℕ → List Op → Option SequenceError
check_fixtures n deleted_by i [] = none
check_fixtures n deleted_by i (o ∷ ops) =
    let skip = check_fixtures n deleted_by (i + 1) ops in
    let deletes = check_fixtures n (insert (fixture o) o deleted_by) (i + 1) ops in
    if not (on_fixture o.type)
    then skip
    else if back_after i (lookup (fixture o) deleted_by)
    then some (acts_on_deleted i)
    else if not (op_type_beq o.type OpType.delete_fixture)
    then skip
    else if holds_of (λ until. leb_ℤ until (pos i) || leb_ℤ (pos n) until) o.until
    then some (until_out_of_range i)
    else deletes

-- `validateFixtures`
unfoldable pub validate_fixtures : Sequence → Option SequenceError
validate_fixtures s = check_fixtures (length s.ops) [] 0 s.ops

abbrev pub last_settles : Option Op → Bool
last_settles none = false
last_settles (some o) = settles o

module _ (lib : Libraries) where
  -- `validate`, and `Validate` where nothing is refused.
  unfoldable pub validate : Map ℕ OpError → Sequence → Option SequenceError
  validate refused s = or_else (validate_ops lib refused 0 s.ops) (
      if nat_eq (length s.ops) 0
      then some no_ops
      else if not (last_settles (get_last? s.ops))
      then some does_not_settle
      else validate_fixtures s)
