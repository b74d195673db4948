-- ===== src/Run/Sequence/Crs/Allowed.antt =====
-- What checkCRs guarantees of the sequences it accepts.
use botbox.Base.{
  String, Bool, true, false, ◌||◌, ◌≡◌, refl, sym, ap, none, List, [], ◌∷◌, ◌==◌, String-eq, ℕ-eq,
  if◌then◌else◌, if-cases, is_some, arith,
}
use botbox.Base.Int.{pos_part}
use botbox.Base.Map.{lookup, lookup-insert, lookup-erase}
use botbox.Json.{Fields}
use botbox.Run.Sequence.{OpType, op_type_beq, Op, Sequence, on_cr}
use botbox.Run.Sequence.Crs.{Crs, name_of, cr_name, check_cr, act_on, check_from, check_crs}

module _ (get_name : Fields → String) (sample : String) where
  -- Of the ops before, the latest first: whether one creates the CR and none since deletes it.
  pub is_there : String → List Op → Bool
  is_there name [] = false
  is_there name (o ∷ earlier) =
      let before = is_there name earlier in
      if cr_name get_name sample o == name
      then if op_type_beq o.type OpType.create || op_type_beq o.type OpType.recreate
        then true
        else if op_type_beq o.type OpType.delete
        then false
        else before
      else before

  -- Whether one creates it at all.
  pub was_created : String → List Op → Bool
  was_created name [] = false
  was_created name (o ∷ earlier) =
      let before = was_created name earlier in
      if cr_name get_name sample o == name
      then if op_type_beq o.type OpType.create || op_type_beq o.type OpType.recreate
        then true
        else before
      else before

  -- A CR op, after the CR ops before it, acts on a CR that can be there.
  pub record IsAllowed (earlier : List Op) (o : Op) : Type 0 where
    pub creates_new :
        op_type_beq o.type OpType.create ≡ true
        → is_there (cr_name get_name sample o) earlier ≡ false
    pub acts_on_live :
        op_type_beq o.type OpType.create ≡ false
        → op_type_beq o.type OpType.recreate ≡ false
        → is_there (cr_name get_name sample o) earlier ≡ true
    pub recreates_same :
        op_type_beq o.type OpType.recreate ≡ true
        → (was_created (cr_name get_name sample o) earlier ≡ true)
          × (name_of get_name o.obj ≡ cr_name get_name sample o)
    pub names_it : is_some o.obj ≡ true → (name_of get_name o.obj == "") ≡ false

  -- Each CR op is allowed after those before it.
  abbrev pub AreAllowed : List Op → List Op → Type 0
  AreAllowed earlier [] = Unit
  AreAllowed earlier (o ∷ left) =
      if on_cr o.type
      then IsAllowed earlier o × AreAllowed (o ∷ earlier) left
      else AreAllowed earlier left

  -- What the maps hold of the CR ops so far: no CR is deleted that was not created.
  record Tracks (crs : Crs) (earlier : List Op) : Type 0 where
    live : (name : String) → is_some (lookup name crs.live) ≡ is_there name earlier
    known :
        (name : String)
        → (is_some (lookup name crs.live) || is_some (lookup name crs.deleted))
          ≡ was_created name earlier

  one_type :
      (t : OpType) → op_type_beq t OpType.recreate ≡ true → op_type_beq t OpType.create ≡ false
  one_type OpType.create e = sym e
  one_type OpType.recreate e = refl
  one_type OpType.update e = refl
  one_type OpType.delete e = refl
  one_type OpType.settle e = refl
  one_type OpType.restart e = refl
  one_type OpType.fault e = refl
  one_type OpType.delete_managed e = refl
  one_type OpType.update_fixture e = refl
  one_type OpType.delete_fixture e = refl
  one_type (OpType.other s) e = refl

  check_cr-IsAllowed :
      (ops : List Op) (crs : Crs) (earlier : List Op) (o : Op)
      → Tracks crs earlier
      → check_cr get_name ops sample crs o ≡ none
      → IsAllowed earlier o
  unfolding check_cr
  check_cr-IsAllowed ops crs earlier o tracks k =
      let name = cr_name get_name sample o in
      let l = tracks.live name in
      let d = tracks.known name in
      let names = String-eq.equals_iff (name_of get_name o.obj) name in
      record {
        creates_new = λ e. ground arith;
        acts_on_live = λ e f. ground arith;
        recreates_same = λ e. let f = one_type o.type e in (ground arith, ground arith);
        names_it = λ e. ground arith;
      }

  act_on-Tracks :
      (crs : Crs) (earlier : List Op) (o : Op)
      → Tracks crs earlier
      → IsAllowed earlier o
      → Tracks (act_on get_name sample crs o) (o ∷ earlier)
  unfolding act_on is_there was_created
  act_on-Tracks crs earlier o tracks allowed = record {
    live = λ name.
        let l = tracks.live name in
        let i = lookup-insert (cr_name get_name sample o) name (pos_part o.index) crs.live in
        let e = lookup-erase (cr_name get_name sample o) name crs.live in ground arith;
    known = λ name.
        let d = tracks.known name in
        let i = lookup-insert (cr_name get_name sample o) name (pos_part o.index) crs.live in
        let j = lookup-insert (cr_name get_name sample o) name (pos_part o.index) crs.deleted in
        let e = lookup-erase (cr_name get_name sample o) name crs.live in
        let same = String-eq.equals_iff (cr_name get_name sample o) name in
        let there = tracks.live (cr_name get_name sample o) in
        let known_of = tracks.known (cr_name get_name sample o) in
        let same_known =
          λ (q : cr_name get_name sample o ≡ name). ap (λ n. was_created n earlier) q in
        ground arith;
  }

  check_from-AreAllowed :
      (ops : List Op) (crs : Crs) (earlier left : List Op)
      → Tracks crs earlier
      → check_from get_name ops sample crs left ≡ none
      → AreAllowed earlier left
  unfolding check_from
  check_from-AreAllowed ops crs earlier [] tracks k = tt
  check_from-AreAllowed ops crs earlier (o ∷ left) tracks k =
      if-cases (λ A. A) (on_cr o.type) (IsAllowed earlier o × AreAllowed (o ∷ earlier) left)
        (AreAllowed earlier left)
        (λ e.
          let allowed = check_cr-IsAllowed ops crs earlier o tracks (ground arith) in
          (
            allowed,
            check_from-AreAllowed ops (act_on get_name sample crs o) (o ∷ earlier) left
                (act_on-Tracks crs earlier o tracks allowed) (ground arith),
          ))
        (λ e. check_from-AreAllowed ops crs earlier left tracks (ground arith))

  -- In a sequence that checkCRs accepts, each op on a CR finds it as the ops before it leave it: a create
  -- names a CR that is not there, an update and a delete one that is, a recreate one that an op before it
  -- creates and the object it creates again, and no op writes an object without a name.
  pub check_crs-AreAllowed :
      (s : Sequence) → check_crs get_name sample s ≡ none → AreAllowed [] s.ops
  unfolding check_crs is_there was_created lookup
  check_crs-AreAllowed s k =
      check_from-AreAllowed s.ops (record { live = []; deleted = [] }) [] s.ops
        (record { live = λ name. refl; known = λ name. refl }) k
