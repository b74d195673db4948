-- ===== src/Witness/OfRun.antt =====
-- A failing sequence of four ops that shrinks to two, and a merge patch.
use botbox.Base.{
  ℕ, ◌+◌, ◌≡◌, ◌≤◌, ◌⊎◌, refl, true, false, none, some, [], ◌∷◌, arith, any, if◌then◌else◌,
}
use botbox.Base.Int.{pos}
use botbox.Json.{Fields, null, str, end, field}
use botbox.Run.Sequence.{OpType, op_type_beq, Fault, Op, Sequence}
use botbox.Run.Sequence.Validate.{Libraries}
use botbox.Run.Shrink.{no_violation, violated, Environment, shrink}
use botbox.Run.Shrink.Weight.{weight}
use botbox.Run.Shrink.Ends.{Replayed, shrink-returns}
use botbox.Run.Merge.{get, merge_patch}
use botbox.Run.Merge.Laws.{IsMap, patched, get-merge_patch}

abbrev bare : ℕ → OpType → Op
bare i t = record {
  index = pos i;
  type = t;
  cr = "";
  kind = "";
  nth = none;
  name = "";
  obj = none;
  patch = none;
  fault = none;
  until = none;
  no_settle = false;
}

abbrev five_times : Fault
five_times = record {
  match = record { verb = ""; resource = "pods"; name = ""; fraction = none };
  action = record { error = pos 503; delay = pos 0; drop = false };
  until = record { op = none; count = pos 5; for = pos 0 };
}

abbrev failing : Sequence
failing = record {
  seed = pos 1;
  target = "toy";
  ops =
      record (bare 0 OpType.create) { obj = some end }
      ∷ record (bare 1 OpType.fault) { fault = some five_times }
      ∷ bare 2 OpType.restart
      ∷ bare 3 OpType.settle
      ∷ [];
}

abbrev lib : Libraries
lib = record { is_glob = λ p. true; is_fraction = λ n. true }

-- A replay fails where the sequence restarts the target; the context never expires.
abbrev env : Environment
env = record {
  World = ℕ;
  replay = λ s n. (
    if any s.ops (λ o. op_type_beq o.type OpType.restart) then violated "g1" else no_violation,
    n + 1,
  );
  expired = λ n. (false, n);
}

shrink-returns_example :
    (r : Sequence × ℕ) × (shrink lib env 20 "g1" failing 0 ≡ some r)
    × ((r.0 ≡ failing) ⊎ Replayed lib env "g1" r.0)
    × (weight r.0 ≤ weight failing)
shrink-returns_example = shrink-returns lib env "g1" failing 0 20 (omega arith)

abbrev spec : Fields
spec = field "size" (str "s") (field "paused" (str "no") end)

-- Changes one field and takes the other away.
abbrev patch : Fields
patch = field "size" (str "m") (field "paused" null end)

patch-IsMap : IsMap patch
unfolding get
patch-IsMap = (refl, (refl, tt))

get-merge_patch_example :
    get "paused" (merge_patch spec patch) ≡ patched (get "paused" spec) (get "paused" patch)
get-merge_patch_example = get-merge_patch "paused" spec patch patch-IsMap
