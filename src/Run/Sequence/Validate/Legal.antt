-- ===== src/Run/Sequence/Validate/Legal.antt =====
-- What the checks of a sequence guarantee.
use mathlib.Core.Option.{some-injective}
use botbox.Base.{
  ℕ, zero, suc, ◌+◌, ◌≡◌, refl, true, Option, none, some, List, [], ◌∷◌, arith, ◌==◌, Bool-eq,
  String-eq, length, get_elem?, drop, Bool-cases, inl, inr, subst, get_last?, is_some, Option-cases,
  all,
}
use botbox.Base.Int.{ℤ, pos, ℤ-eq}
use botbox.Base.Map.{lookup}
use botbox.Run.Sequence.{OpType, op_types, is_one_of, Op, Sequence}
use botbox.Run.Sequence.Validate.{
  Libraries, Field, op_fields, carried, fields_of, check_fields, validate_fields, validate_op,
  validate_ops, validate, validate_fixtures, last_settles, or_else,
}
use botbox.Run.Sequence.Validate.Fixtures.{ComesBack, deleted-ComesBack}

-- The first check passes where the next is reached.
or_else-none {ℓ} : {E : Type ℓ} (a b : Option E) → or_else a b ≡ none → (a ≡ none) × (b ≡ none)
or_else-none none b h = (refl, h)
or_else-none (some e) b h = absurd (ground arith)

check_fields-all :
    (o : Op) (fs : List Field)
    → check_fields o fs ≡ none
    → all fs (λ f. carried o f == fields_of o.type f) ≡ true
unfolding check_fields
check_fields-all o [] h = refl
check_fields-all o (f ∷ fs) h = elim (Bool-cases (carried o f == fields_of o.type f)) [
  | inl e ↦ ground (arith, check_fields-all o fs (ground arith))
  | inr e ↦ absurd (ground arith)
]

module _ (lib : Libraries) where
  -- An op of a legal sequence: its type is known, its index is its position, and it carries exactly the
  -- fields that its type takes.
  pub record IsLegalOp (i : ℕ) (o : Op) : Type 0 where
    pub known : is_one_of op_types o.type ≡ true
    pub placed : (o.index == pos i) ≡ true
    pub fields : all op_fields (λ f. carried o f == fields_of o.type f) ≡ true

  validate_op-fields : (i : ℕ) (o : Op) → validate_op lib o i ≡ none → validate_fields o ≡ none
  unfolding validate_op
  validate_op-fields i o h = ground arith

  validate_fields-checked : (o : Op) → validate_fields o ≡ none → check_fields o op_fields ≡ none
  unfolding validate_fields
  validate_fields-checked o h = (or_else-none (check_fields o op_fields) _ h).0

  validate_op-IsLegalOp : (i : ℕ) (o : Op) → validate_op lib o i ≡ none → IsLegalOp i o
  unfolding validate_op
  validate_op-IsLegalOp i o h = record {
    known = ground arith;
    placed = ground arith;
    fields = check_fields-all o op_fields (validate_fields-checked o (validate_op-fields i o h));
  }

  validate_ops-each :
      (i k : ℕ) (ops : List Op) (o : Op)
      → validate_ops lib [] i ops ≡ none
      → get_elem? ops k ≡ some o
      → validate_op lib o (i + k) ≡ none
  unfolding validate_ops lookup
  validate_ops-each i k [] o h e = absurd (ground arith)
  validate_ops-each i zero (x ∷ ops) o h e =
      let here : i ≡ i + 0 = omega arith in
      let first : validate_op lib x i ≡ none = ground arith in
      subst (λ p. validate_op lib o p ≡ none) here
        (subst (λ y. validate_op lib y i ≡ none) (some-injective _ _ e) first)
  validate_ops-each i (suc k) (x ∷ ops) o h e =
      let there : i + 1 + k ≡ i + suc k = omega arith in
      subst (λ p. validate_op lib o p ≡ none) there
        (validate_ops-each (i + 1) k ops o (or_else-none _ (validate_ops lib [] (i + 1) ops) h).1 e)

  legal_op :
      (s : Sequence) (i : ℕ) (o : Op)
      → validate lib [] s ≡ none
      → get_elem? s.ops i ≡ some o
      → validate_op lib o i ≡ none
  unfolding validate
  legal_op s i o h e =
      let there : 0 + i ≡ i = omega arith in
      subst (λ p. validate_op lib o p ≡ none) there
        (validate_ops-each 0 i s.ops o (or_else-none (validate_ops lib [] 0 s.ops) _ h).0 e)

  carries_until :
      (i : ℕ) (d : Op) → d.type ≡ OpType.delete_fixture → IsLegalOp i d → is_some d.until ≡ true
  unfolding carried fields_of
  carries_until i d t l =
      let takes : fields_of d.type Field.until ≡ true = rw t refl in
      let fields = l.fields in ground arith

  -- Each op of a sequence that Validate accepts is legal at its place, and the last one settles.
  pub validate-IsLegalOp :
      (s : Sequence) (i : ℕ) (o : Op)
      → validate lib [] s ≡ none
      → get_elem? s.ops i ≡ some o
      → IsLegalOp i o × (last_settles (get_last? s.ops) ≡ true)
  unfolding validate
  validate-IsLegalOp s i o h e = (validate_op-IsLegalOp i o (legal_op s i o h e), ground arith)

  without_until : {o : Option ℤ} → o ≡ none → is_some o ≡ true → ⊥
  without_until n h = ground arith

  legal_fixture :
      (s : Sequence) (i : ℕ) (d : Op) (u : ℤ)
      → validate_fixtures s ≡ none
      → get_elem? s.ops i ≡ some d
      → d.type ≡ OpType.delete_fixture
      → d.until ≡ some u
      → ComesBack (length s.ops) i (drop (suc i) s.ops) d u
  unfolding validate_fixtures
  legal_fixture s i d u h e t q =
      let there : 0 + i ≡ i = omega arith in
      subst (λ p. ComesBack (length s.ops) p (drop (suc i) s.ops) d u) there
        (deleted-ComesBack (length s.ops) 0 i [] s.ops d u h e t q)

  -- A fixture that an op of an accepted sequence deletes comes back after the op and by the last one,
  -- and no op acts on it until then.
  pub validate-ComesBack :
      (s : Sequence) (i : ℕ) (d : Op)
      → validate lib [] s ≡ none
      → get_elem? s.ops i ≡ some d
      → d.type ≡ OpType.delete_fixture
      → (u : ℤ) × (d.until ≡ some u) × ComesBack (length s.ops) i (drop (suc i) s.ops) d u
  unfolding validate
  validate-ComesBack s i d h e t =
      let fixtures : validate_fixtures s ≡ none = ground arith in
      elim (Option-cases d.until) [
        | inl n ↦
            absurd (
              without_until n
                (carries_until i d t (validate_op-IsLegalOp i d (legal_op s i d h e))))
        | inr (u, q) ↦ (u, q, legal_fixture s i d u fixtures e t q)
      ]
