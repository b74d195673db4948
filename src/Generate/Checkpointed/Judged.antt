-- ===== src/Generate/Checkpointed/Judged.antt =====
-- internal/generate/generate.go, `checkpointed`: the ops that it leaves judged.
use botbox.Base.{
  ℕ, suc, ◌+◌, ◌*◌, ◌≤◌, Bool, true, false, not, ◌&&◌, ◌||◌, Option, some, List, [], ◌∷◌, ◌++◌, ◌≡◌,
  refl, sym, ap, subst, ◌∙◌, if◌then◌else◌, length, arith, Bool-cases, inl, inr,
}
use botbox.Base.Int.{ℤ, pos}
use botbox.Run.Sequence.{OpType, op_type_beq, Op, settles}
use botbox.Generate.Checkpointed.{
  a_settle, wants_settled, next_is_settle, is_last, settles_after, set_untils, next_settling,
  at_itself, checkpointed,
}
use botbox.Generate.Checkpointed.Kinds.{and_false, or_true, unsettled, unwanted_as}
use botbox.Generate.Checkpointed.Wraps.{waits, stream, checkpoint_from-stream}

-- The ops from position n on, after an op that settled or did not, and what is judged of them: each
-- drawn op at its position, in order, with settle waits only where the op before does not settle. The
-- last op settles. A restart or a delete of a managed object comes after one that settles, and
-- a settle wait comes after a restart. A deleted fixture comes back at the next op that settles.
pub data IsJudged : ℕ → Bool → List Op → List Op → Type 0 where
  done : {n : ℕ} → IsJudged n true [] []
  waited :
      {n : ℕ} {ops out : List Op}
      → IsJudged (suc n) true ops out
      → IsJudged n false ops (record a_settle { index = pos n } ∷ out)
  kept :
      {n : ℕ} {settled : Bool} {o : Op} {ops out : List Op}
      → op_type_beq o.type OpType.delete_fixture ≡ false
      → (wants_settled o && not settled) ≡ false
      → (op_type_beq o.type OpType.restart && not (next_is_settle out)) ≡ false
      → IsJudged (suc n) (settles o) ops out
      → IsJudged n settled (o ∷ ops) (record o { index = pos n } ∷ out)
  deleted :
      {n : ℕ} {settled : Bool} {o : Op} {ops out : List Op} {j : ℕ}
      → op_type_beq o.type OpType.delete_fixture ≡ true
      → next_settling (suc n) out ≡ some j
      → IsJudged (suc n) (settles o) ops out
      → IsJudged n settled (o ∷ ops) (record o { index = pos n; until = some (pos j) } ∷ out)

next_settling-until :
    (b : Bool) (o : Op) (u : Option ℤ) (i : ℕ) (ops : List Op)
    → next_settling i (if b then record o { until = u } ∷ ops else o ∷ ops)
      ≡ (if settles o then some i else next_settling (suc i) ops)
unfolding next_settling settles
next_settling-until true o u i ops = refl
next_settling-until false o u i ops = refl

next_settling-set_untils :
    (f : ℕ → Op → Option ℤ) (i n : ℕ) (ops : List Op)
    → next_settling i (set_untils f n ops) ≡ next_settling i ops
unfolding next_settling set_untils
next_settling-set_untils f i n [] = refl
next_settling-set_untils f i n (o ∷ ops) =
    next_settling-until (op_type_beq o.type OpType.delete_fixture) o _ i _
    ∙ ap (λ r. if settles o then some i else r) (next_settling-set_untils f (suc i) (suc n) ops)

or_first :
    (b : Bool) (n : ℕ) (later : Option ℕ)
    → (b ≡ false → (j : ℕ) × (later ≡ some j))
    → (j : ℕ) × ((if b then some n else later) ≡ some j)
or_first true n later found = (n, refl)
or_first false n later found = found refl

next-exists :
    {n : ℕ} {settled : Bool} {ops out : List Op}
    → IsJudged n settled ops out
    → settled ≡ false
    → (j : ℕ) × (next_settling n out ≡ some j)
unfolding next_settling settles
next-exists done h = ground arith
next-exists {n} (waited later) h = (n, refl)
next-exists {n} (kept {o = o} d w r later) h = or_first (settles o) n _ (next-exists later)
next-exists {n} (deleted {o = o} d j later) h = or_first (settles o) n _ (next-exists later)

next_is_settle-until :
    (b : Bool) (o : Op) (u : Option ℤ) (ops : List Op)
    → next_is_settle (if b then record o { until = u } ∷ ops else o ∷ ops)
      ≡ op_type_beq o.type OpType.settle
next_is_settle-until true o u ops = refl
next_is_settle-until false o u ops = refl

next_is_settle-set_untils :
    (f : ℕ → Op → Option ℤ) (n : ℕ) (ops : List Op)
    → next_is_settle (set_untils f n ops) ≡ next_is_settle ops
unfolding set_untils
next_is_settle-set_untils f n [] = refl
next_is_settle-set_untils f n (o ∷ ops) = next_is_settle-until _ o _ _

-- An op after which settled ones were judged is emitted at its position.
judged_after :
    (o : Op) (n : ℕ) (settled : Bool) (ops out : List Op)
    → (wants_settled o && not settled) ≡ false
    → (op_type_beq o.type OpType.restart && not (next_is_settle out)) ≡ false
    → IsJudged (suc n) (settles o) ops (set_untils at_itself (suc n) out)
    → IsJudged n settled (o ∷ ops) (set_untils at_itself n (record o { index = pos n } ∷ out))
unfolding set_untils
judged_after o n settled ops out wants restarts later =
    let next = next_settling-set_untils at_itself (suc n) (suc n) out in
    let shown = next_is_settle-set_untils at_itself (suc n) out in
    elim (Bool-cases (op_type_beq o.type OpType.delete_fixture)) [
      | inl is ↦
          let (j, at) = next-exists later (unsettled o (rw is (or_true _))) in
          rw (is, sym next ∙ at) (deleted is at later)
      | inr isnt ↦ rw (isnt) (
          kept isnt wants (ap (λ b. op_type_beq o.type OpType.restart && not b) shown ∙ restarts)
            later)
    ]

next_is_settle-stream :
    (rest : List Op) (n : ℕ) (settled : Bool)
    → next_is_settle rest ≡ true
    → next_is_settle (stream rest n settled) ≡ true
unfolding stream
next_is_settle-stream [] n settled h = ground arith
next_is_settle-stream (o ∷ rest) n settled h = rw (unwanted_as o.type h) h

by_next : (r b c : Bool) → (b ≡ true → c ≡ true) → (r && not b) ≡ false → (r && not c) ≡ false
by_next false b c f h = refl
by_next true true c f h = ap not (f refl)
by_next true false c f h = ground arith

left_false : (b c : Bool) → (b || c) ≡ false → b ≡ false
left_false true c h = ground arith
left_false false c h = refl

-- After a restart that is not the last, what is emitted begins with a settle wait.
restart-waits :
    (r l b : Bool) (rest more : List Op) (m n : ℕ) (settled : Bool)
    → ((r && not (next_is_settle rest)) || l) ≡ b
    → more ≡ waits b m ++ stream rest n settled
    → (r && not (next_is_settle more)) ≡ false
restart-waits r l true rest more m n settled e is = rw is (and_false r)
restart-waits false l false rest more m n settled e is = refl
restart-waits true l false rest more m n settled e is = rw is (
    by_next true (next_is_settle rest) _ (next_is_settle-stream rest n settled)
      (left_false (not (next_is_settle rest)) l e))

-- Ops with a settle wait before them at position m, or none.
waits-IsJudged :
    (b was : Bool) (ops : List Op) (m : ℕ) (body : ℕ → List Op)
    → (b ≡ true → was ≡ false)
    → ((n : ℕ) → IsJudged n (b || was) ops (set_untils at_itself n (body n)))
    → IsJudged m was ops (set_untils at_itself m (waits b m ++ body (m + length (waits b m))))
unfolding set_untils
waits-IsJudged true was ops m body h later =
    let next : suc m ≡ m + 1 = omega arith in
    rw (h refl) (
      waited (
        subst (λ k. IsJudged (suc m) true ops (set_untils at_itself (suc m) (body k))) next
          (later (suc m))))
waits-IsJudged false was ops m body h later =
    let same : m ≡ m + 0 = omega arith in
    subst (λ k. IsJudged m was ops (set_untils at_itself m (body k))) same (later m)

needs-unsettled : (w s : Bool) → (w && not s) ≡ true → s ≡ false
needs-unsettled w true h = ground arith
needs-unsettled w false h = refl

met : (w s : Bool) → (w && not ((w && not s) || s)) ≡ false
met false s = refl
met true true = refl
met true false = refl

-- A settle wait is emitted only after an op that does not settle.
settles_after-unsettled :
    (o : Op) (rest : List Op) → settles_after o rest (settles o) ≡ true → settles o ≡ false
settles_after-unsettled o rest h = elim (Bool-cases (op_type_beq o.type OpType.restart)) [
  | inl is ↦ unsettled o (rw is refl)
  | inr isnt ↦ needs-unsettled (is_last rest) (settles o) (rw (isnt) at h)
]

met_after : (a l s : Bool) → (l && not ((a || (l && not s)) || s)) ≡ false
met_after a false s = refl
met_after true true s = refl
met_after false true true = refl
met_after false true false = refl

-- Where the last of what was judged settled, or ops are left, the rest is judged.
stream-IsJudged :
    (ops : List Op) (n : ℕ) (settled : Bool)
    → (is_last ops && not settled) ≡ false
    → IsJudged n settled ops (set_untils at_itself n (stream ops n settled))
unfolding set_untils stream
stream-IsJudged [] n true h = done
stream-IsJudged [] n false h = ground arith
stream-IsJudged (o ∷ rest) n settled h =
    let first = wants_settled o && not settled in
    let after = settles_after o rest (settles o) in
    let r = op_type_beq o.type OpType.restart in
    let more = λ (k : ℕ). stream rest k (after || settles o) in
    let out = λ (k : ℕ). waits after (suc k) ++ more (suc k + length (waits after (suc k))) in
    let later = λ (k : ℕ).
      waits-IsJudged after (settles o) rest (suc k) more (settles_after-unsettled o rest) (λ i.
        stream-IsJudged rest i (after || settles o)
          (met_after (r && not (next_is_settle rest)) (is_last rest) (settles o))) in
    waits-IsJudged first settled (o ∷ rest) n (λ k. record o { index = pos k } ∷ out k)
      (needs-unsettled (wants_settled o) settled)
      (λ k.
        judged_after o k (first || settled) rest (out k) (met (wants_settled o) settled)
          (restart-waits r (is_last rest && not (settles o)) after rest (out k) (suc k) _ _ refl
            refl)
          (later k))

-- A settle wait that the ops so far still want.
abbrev wanted : Bool → ℕ
wanted true = 0
wanted false = 1

wanted-le : (b : Bool) → wanted b ≤ 1
wanted-le true = omega arith
wanted-le false = omega arith

length-bound :
    {n : ℕ} {settled : Bool} {ops out : List Op}
    → IsJudged n settled ops out
    → length out ≤ 2 * length ops + wanted settled
length-bound done = omega arith
length-bound (waited later) = omega (arith, length-bound later)
length-bound (kept {o = o} d w r later) = omega (arith, wanted-le (settles o), length-bound later)
length-bound (deleted {o = o} d at later) = omega (arith, wanted-le (settles o), length-bound later)

-- What checkpointed makes of any drawn ops, if there are any: each op in order, at its position,
-- with settle waits only where the op before does not settle, which are at most one more than the
-- ops. The last op settles; a restart or a delete of a managed object comes after an op that settles;
-- a settle wait comes after a restart; and a deleted fixture comes back at the next op that
-- settles, which there is.
pub checkpointed-IsJudged :
    (o : Op) (ops : List Op)
    → IsJudged 0 false (o ∷ ops) (checkpointed (o ∷ ops))
      × (length (checkpointed (o ∷ ops)) ≤ 2 * length (o ∷ ops) + 1)
unfolding checkpointed
checkpointed-IsJudged o ops =
    let judged : IsJudged 0 false (o ∷ ops) (checkpointed (o ∷ ops)) =
      subst (λ out. IsJudged 0 false (o ∷ ops) (set_untils at_itself 0 out))
        (sym (checkpoint_from-stream (o ∷ ops) [] false))
        (stream-IsJudged (o ∷ ops) 0 false refl) in
    (judged, length-bound judged)
