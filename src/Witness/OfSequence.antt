-- ===== src/Witness/OfSequence.antt =====
-- A legal sequence that deletes a fixture and gives it back.
use botbox.Base.{ℕ, String, suc, ◌≡◌, refl, true, false, none, some, [], ◌∷◌, length, drop}
use botbox.Base.Int.{ℤ, pos}
use botbox.Json.{Fields, end, field, null}
use botbox.Run.Sequence.Crs.{CrError, cr_name, check_cr, act_on, check_from, check_crs}
use botbox.Run.Sequence.Crs.Allowed.{AreAllowed, check_crs-AreAllowed}
use botbox.Run.Sequence.{OpType, Op, Sequence, on_cr, settles}
use botbox.Run.Sequence.Validate.{
  Libraries, validate, validate_ops, validate_op, validate_fields, check_fields, carried, fields_of,
  validate_fixtures, check_fixtures,
}
use botbox.Base.Map.{lookup, insert, erase}
use botbox.Run.Sequence.Validate.Fixtures.{ComesBack}
use botbox.Run.Sequence.Validate.Legal.{validate-ComesBack}

abbrev lib : Libraries
lib = record { is_glob = λ p. true; is_fraction = λ n. true }

abbrev bare : ℕ → OpType → Op
bare i t = record {
  index = pos i;
  type = t;
  cr = "";
  kind = "";
  nth = none;
  name = "";
  obj = none;
  patch = none;
  fault = none;
  until = none;
  no_settle = false;
}

-- Away from op 1 until op 3.
abbrev away : Op
away = record (bare 1 OpType.delete_fixture) {
  kind = "v1/Secret";
  name = "token";
  until = some (pos 3);
}

abbrev legal : Sequence
legal = record {
  seed = pos 1;
  target = "toy";
  ops =
      record (bare 0 OpType.create) { obj = some end }
      ∷ away
      ∷ bare 2 OpType.restart
      ∷ record (bare 3 OpType.update_fixture) {
        kind = "v1/Secret";
        name = "token";
        patch = some end;
      }
      ∷ [];
}

validate_test : validate lib [] legal ≡ none
unfolding validate validate_ops validate_op validate_fields check_fields carried fields_of lookup
    settles validate_fixtures check_fixtures insert
validate_test = refl

validate-ComesBack_example :
    (u : ℤ) × (away.until ≡ some u) × ComesBack (length legal.ops) 1 (drop (suc 1) legal.ops) away u
validate-ComesBack_example = validate-ComesBack lib legal 1 away validate_test refl refl

-- An object that a sequence writes has its name as its first key.
abbrev first_key : Fields → String
first_key end = ""
first_key (field key value rest) = key

-- A Widget that is created, changed, deleted, and after a settle created again.
abbrev recreated : Sequence
recreated = record {
  seed = pos 1;
  target = "toy";
  ops =
      record (bare 0 OpType.create) { obj = some (field "w" null end) }
      ∷ record (bare 1 OpType.update) { patch = some end }
      ∷ record (bare 2 OpType.delete) { no_settle = true }
      ∷ bare 3 OpType.settle
      ∷ record (bare 4 OpType.create) { obj = some (field "w" null end) }
      ∷ [];
}

check_crs_test : check_crs first_key "w" recreated ≡ none
unfolding check_crs check_from check_cr act_on cr_name on_cr lookup insert erase settles
check_crs_test = refl

-- Without the settle the Widget may still be there.
still_there_test :
    check_crs first_key "w" (record recreated {
      ops =
          record (bare 0 OpType.create) { obj = some (field "w" null end) }
          ∷ record (bare 1 OpType.delete) { no_settle = true }
          ∷ record (bare 2 OpType.create) { obj = some (field "w" null end) }
          ∷ [];
    })
    ≡ some (CrError.may_still_be_there 2)
unfolding check_crs check_from check_cr act_on cr_name on_cr lookup insert erase settles
still_there_test = refl

check_crs-AreAllowed_example : AreAllowed first_key "w" [] recreated.ops
check_crs-AreAllowed_example = check_crs-AreAllowed first_key "w" recreated check_crs_test
