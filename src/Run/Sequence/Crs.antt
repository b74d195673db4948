-- ===== src/Run/Sequence/Crs.antt =====
-- internal/run/sequence.go, `checkCRs`: each CR op of a sequence acts on a CR that can be there. The ops
-- have passed the other checks, so an op's index is its position.
pub mod Allowed
use botbox.Base.{
  ℕ, ◌-◌, String, Bool, true, false, not, ◌&&◌, ◌||◌, Option, none, some, List, [], ◌∷◌, ◌==◌,
  String-eq, ℕ-eq, if◌then◌else◌, any, drop, take, is_some,
}
use botbox.Base.Int.{pos_part}
use botbox.Base.Map.{Map, lookup, insert, erase}
use botbox.Json.{Fields}
use botbox.Run.Sequence.{OpType, op_type_beq, Op, Sequence, on_cr, settles}

pub data CrError : Type 0 where
  unnamed created_twice may_still_be_there names_no_cr never_created creates_another
        deleted_before :
      ℕ → CrError

-- The maps `live` and `deleted`: the index of the op that created each live CR, and of the op that last
-- deleted each other one.
pub record Crs : Type 0 where
  pub live : Map String ℕ
  pub deleted : Map String ℕ

-- An object's GetName.
module _ (get_name : Fields → String) where
  abbrev pub name_of : Option Fields → String
  name_of none = ""
  name_of (some obj) = get_name obj

  -- `crName`
  unfoldable pub cr_name : String → Op → String
  cr_name sample o =
      if op_type_beq o.type OpType.create
      then name_of o.obj
      else if o.cr == ""
      then sample
      else o.cr

  -- Whether an op of s.Ops[from:to] settles.
  abbrev settles_between : List Op → Option ℕ → ℕ → Bool
  settles_between ops none to = false
  settles_between ops (some from) to = any (drop from (take to ops)) settles

  -- The first switch of the loop. `ops` is the whole sequence.
  unfoldable pub check_cr : List Op → String → Crs → Op → Option CrError
  unfolding cr_name
  check_cr ops sample crs o =
      let name = cr_name sample o in
      let creating = op_type_beq o.type OpType.create in
      let is_live = is_some (lookup name crs.live) in
      let was_deleted = is_some (lookup name crs.deleted) in
      let index = pos_part o.index in
      if is_some o.obj && name_of o.obj == ""
      then some (unnamed index)
      else if creating && is_live
      then some (created_twice index)
      else if creating && (was_deleted && not (settles_between ops (lookup name crs.deleted) index))
      then some (may_still_be_there index)
      else if creating
      then none
      else if not is_live && (not was_deleted && o.cr == "")
      then some (names_no_cr index)
      else if not is_live && not was_deleted
      then some (never_created index)
      else if op_type_beq o.type OpType.recreate && not (name_of o.obj == name)
      then some (creates_another index)
      else if not (op_type_beq o.type OpType.recreate) && not is_live
      then some (deleted_before index)
      else none

  -- The second switch.
  unfoldable pub act_on : String → Crs → Op → Crs
  act_on sample crs o =
      let name = cr_name sample o in
      let index = pos_part o.index in
      if op_type_beq o.type OpType.create || op_type_beq o.type OpType.recreate
      then record crs { live = insert name index crs.live }
      else if op_type_beq o.type OpType.delete
      then record crs { live = erase name crs.live; deleted = insert name index crs.deleted }
      else crs

  -- The loop over the ops that are left.
  unfoldable pub check_from : List Op → String → Crs → List Op → Option CrError
  unfolding check_cr act_on
  check_from ops sample crs [] = none
  check_from ops sample crs (o ∷ left) =
      let skip = check_from ops sample crs left in
      let next = check_from ops sample (act_on sample crs o) left in
      if not (on_cr o.type)
      then skip
      else if is_some (check_cr ops sample crs o)
      then check_cr ops sample crs o
      else next

  -- `checkCRs`
  unfoldable pub check_crs : String → Sequence → Option CrError
  unfolding check_from
  check_crs sample s = check_from s.ops sample (record { live = []; deleted = [] }) s.ops
