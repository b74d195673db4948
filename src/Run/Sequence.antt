-- ===== src/Run/Sequence.antt =====
-- internal/run/sequence.go: a test sequence and the well-formedness of its ops. Here the types; the
-- checks are in Validate.
pub mod Validate
pub mod Crs
use botbox.Base.{
  ℕ, String, Bool, true, false, not, ◌&&◌, ◌||◌, Option, none, some, List, [], ◌∷◌, ◌==◌, Eq, ◌≡◌,
  ◌↔◌, arith, String-eq, any,
}
use text.Mathlib.TextEquality.{eq_iff}
use botbox.Base.Int.{ℤ, ℤ-eq}
use botbox.Json.{Fields}

-- An op's "t". `other` is a text that names no type.
pub data OpType : Type 0 where
  create update delete recreate settle restart fault delete_managed update_fixture delete_fixture :
      OpType
  other : String → OpType

abbrev pub op_type_beq : OpType → OpType → Bool
op_type_beq OpType.create OpType.create = true
op_type_beq OpType.update OpType.update = true
op_type_beq OpType.delete OpType.delete = true
op_type_beq OpType.recreate OpType.recreate = true
op_type_beq OpType.settle OpType.settle = true
op_type_beq OpType.restart OpType.restart = true
op_type_beq OpType.fault OpType.fault = true
op_type_beq OpType.delete_managed OpType.delete_managed = true
op_type_beq OpType.update_fixture OpType.update_fixture = true
op_type_beq OpType.delete_fixture OpType.delete_fixture = true
op_type_beq (OpType.other s) (OpType.other t) = s == t
op_type_beq _ _ = false

-- `Match`. A fraction is the 64 bits of its float.
pub record Match : Type 0 where
  pub verb : String
  pub resource : String
  pub name : String
  pub fraction : Option ℕ

pub record Action : Type 0 where
  pub error : ℤ
  pub delay : ℤ
  pub drop : Bool

pub record Trigger : Type 0 where
  pub op : Option ℤ
  pub count : ℤ
  pub for : ℤ

pub record Fault : Type 0 where
  pub match : Match
  pub action : Action
  pub until : Trigger

-- `Until` is the index of the op it names.
pub record Op : Type 0 where
  pub index : ℤ
  pub type : OpType
  pub cr : String
  pub kind : String
  pub nth : Option ℤ
  pub name : String
  pub obj : Option Fields
  pub patch : Option Fields
  pub fault : Option Fault
  pub until : Option ℤ
  pub no_settle : Bool

pub record Sequence : Type 0 where
  pub seed : ℤ
  pub target : String
  pub ops : List Op

-- The list holds the type.
abbrev pub is_one_of : List OpType → OpType → Bool
is_one_of ts t = any ts (λ u. op_type_beq u t)

abbrev pub cr_ops : List OpType
cr_ops = OpType.create ∷ OpType.update ∷ OpType.delete ∷ OpType.recreate ∷ []

abbrev mutating_ops : List OpType
mutating_ops =
    OpType.create ∷ OpType.update ∷ OpType.delete ∷ OpType.recreate ∷ OpType.delete_managed
    ∷ OpType.update_fixture ∷ []

abbrev pub op_types : List OpType
op_types =
    OpType.create ∷ OpType.update ∷ OpType.delete ∷ OpType.recreate ∷ OpType.settle ∷ OpType.restart
    ∷ OpType.fault ∷ OpType.delete_managed ∷ OpType.update_fixture ∷ OpType.delete_fixture ∷ []

-- `OnCR`
unfoldable pub on_cr : OpType → Bool
on_cr t = is_one_of cr_ops t

-- `Settles`
unfoldable pub settles : Op → Bool
settles o = op_type_beq o.type OpType.settle || (not o.no_settle && is_one_of mutating_ops o.type)
