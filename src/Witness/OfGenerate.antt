-- ===== src/Witness/OfGenerate.antt =====
-- Drawn ops, with the settle waits that leave them judged.
use botbox.Base.{◌+◌, drop, none, ◌+◌, ◌*◌, ◌≤◌, length, false, List, [], ◌∷◌, ◌≡◌, refl, map}
use botbox.Base.Int.{pos}
use botbox.Run.Sequence.{OpType, Op, settles, Fault}
use botbox.Generate.Checkpointed.{a_settle, checkpointed}
use botbox.Generate.Checkpointed.Judged.{IsJudged, checkpointed-IsJudged}

abbrev of_type : OpType → Op
of_type t = record a_settle { type = t }

abbrev delete_fixture : Op
delete_fixture = of_type OpType.delete_fixture

abbrev more : List Op
more = of_type OpType.restart ∷ of_type OpType.delete_managed ∷ delete_fixture ∷ []

-- A wait before the restart, one after it, and one at the end. The deleted fixture comes back at op 2.
waits_test : map Op.type (checkpointed (delete_fixture ∷ more)) ≡ (
    OpType.delete_fixture ∷ OpType.settle ∷ OpType.restart ∷ OpType.settle ∷ OpType.delete_managed
    ∷ OpType.delete_fixture ∷ OpType.settle ∷ [])
unfolding checkpointed settles
waits_test = refl

checkpointed-IsJudged_example :
    IsJudged 0 false (delete_fixture ∷ more) (checkpointed (delete_fixture ∷ more))
    × (length (checkpointed (delete_fixture ∷ more)) ≤ 2 * length (delete_fixture ∷ more) + 1)
checkpointed-IsJudged_example = checkpointed-IsJudged delete_fixture more

abbrev fault : Fault
fault = record {
  match = record { verb = "update"; resource = "widgets"; name = ""; fraction = none };
  action = record { error = pos 503; delay = pos 0; drop = false };
  until = record { op = none; count = pos 0; for = pos 0 };
}

abbrev drawn : List Op
drawn = of_type OpType.update ∷ of_type OpType.update ∷ delete_fixture ∷ []
