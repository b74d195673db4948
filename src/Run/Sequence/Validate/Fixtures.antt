-- ===== src/Run/Sequence/Validate/Fixtures.antt =====
-- What a sequence that passes the checks does with its fixtures.
use botbox.Base.{
  ℕ, zero, suc, ◌+◌, ◌≡◌, refl, String, Bool, true, false, not, ◌&&◌, ◌||◌, Option, none, some,
  List, [], ◌∷◌, arith, String-eq, ◌==◌, get_elem?, drop, Bool-cases, inl, inr, sym, ◌∙◌, ap, subst,
  Bool-eq,
}
use mathlib.Core.Option.{some-injective}
use text.Mathlib.TextEquality.{eq_iff}
use botbox.Base.Int.{ℤ, pos, negsuc, ltb_ℤ, leb_ℤ}
use botbox.Base.Map.{Map, lookup, insert, lookup-insert, beq_refl}
use botbox.Run.Sequence.{OpType, op_type_beq, Op}
use botbox.Run.Sequence.Validate.{check_fixtures, fixture, on_fixture, back_after, holds_of}

-- From position `i` on, no op before position `u` updates or deletes the fixture.
unfoldable pub untouched : String → ℤ → ℕ → List Op → Bool
untouched f u i [] = true
untouched f u i (o ∷ ops) =
    (leb_ℤ u (pos i) || not (on_fixture o.type && fixture o == f)) && untouched f u (suc i) ops

leb_suc : (u : ℤ) (i : ℕ) → leb_ℤ u (pos i) ≡ true → leb_ℤ u (pos (suc i)) ≡ true
leb_suc (pos n) i h = ground arith
leb_suc (negsuc n) i h = refl

untouched-back :
    (f : String) (u : ℤ) (i : ℕ) (ops : List Op)
    → leb_ℤ u (pos i) ≡ true
    → untouched f u i ops ≡ true
unfolding untouched
untouched-back f u i [] h = refl
untouched-back f u i (o ∷ ops) h = ground (arith, untouched-back f u (suc i) ops (leb_suc u i h))

-- Where the deleted fixture that a map holds comes back.
abbrev back : Option Op → Option ℤ
back none = none
back (some d) = d.until

come_back :
    (i : ℕ) (o : Option ℤ) (u : ℤ)
    → o ≡ some u
    → holds_of (λ until. ltb_ℤ (pos i) until) o ≡ false
    → leb_ℤ u (pos i) ≡ true
come_back i none u e h = absurd (ground arith)
come_back i (some v) (pos n) e h = ground arith
come_back i (some v) (negsuc n) e h = refl

not_back :
    (i : ℕ) (d : Option Op) (u : ℤ)
    → back d ≡ some u
    → back_after i d ≡ false
    → leb_ℤ u (pos i) ≡ true
not_back i none u e h = absurd (ground arith)
not_back i (some d) u e h = come_back i d.until u e h

-- What a passed round of the loop checked.
data Passed (n i : ℕ) (m : Map String Op) (o : Op) (ops : List Op) : Type 0 where
  elsewhere :
      on_fixture o.type ≡ false
      → op_type_beq o.type OpType.delete_fixture ≡ false
      → check_fixtures n m (i + 1) ops ≡ none
      → Passed n i m o ops
  updates :
      back_after i (lookup (fixture o) m) ≡ false
      → op_type_beq o.type OpType.delete_fixture ≡ false
      → check_fixtures n m (i + 1) ops ≡ none
      → Passed n i m o ops
  deletes :
      back_after i (lookup (fixture o) m) ≡ false
      → holds_of (λ until. leb_ℤ until (pos i) || leb_ℤ (pos n) until) o.until ≡ false
      → check_fixtures n (insert (fixture o) o m) (i + 1) ops ≡ none
      → Passed n i m o ops

passed :
    (n i : ℕ) (m : Map String Op) (o : Op) (ops : List Op)
    → check_fixtures n m i (o ∷ ops) ≡ none
    → Passed n i m o ops
unfolding check_fixtures
passed n i m o ops c = elim (Bool-cases (on_fixture o.type)) [
  | inr a ↦ elsewhere a (ground arith) (ground arith)
  | inl a ↦ elim (Bool-cases (op_type_beq o.type OpType.delete_fixture)) [
    | inl d ↦ deletes (ground arith) (ground arith) (ground arith)
    | inr d ↦ updates (ground arith) d (ground arith)
  ]
]

come_back-at :
    (i : ℕ) (m : Map String Op) (o : Op) (f : String) (u : ℤ)
    → back (lookup f m) ≡ some u
    → back_after i (lookup (fixture o) m) ≡ false
    → (fixture o == f) ≡ true
    → leb_ℤ u (pos i) ≡ true
come_back-at i m o f u e b same =
    let q : fixture o ≡ f = (eq_iff (fixture o) f).0 same in
    not_back i (lookup f m) u e (ap (λ g. back_after i (lookup g m)) (sym q) ∙ b)

still :
    (o : Op) (f : String) (m : Map String Op) (u : ℤ)
    → (fixture o == f) ≡ false
    → back (lookup f m) ≡ some u
    → back (lookup f (insert (fixture o) o m)) ≡ some u
still o f m u other e = rw (lookup-insert (fixture o) f o m, other) e

-- Every op on a fixture that the map holds as deleted comes after the fixture is back.
check_fixtures-untouched :
    (n i : ℕ) (m : Map String Op) (ops : List Op) (f : String) (u : ℤ)
    → check_fixtures n m i ops ≡ none
    → back (lookup f m) ≡ some u
    → untouched f u i ops ≡ true
unfolding untouched
check_fixtures-untouched n i m [] f u c e = refl
check_fixtures-untouched n i m (o ∷ ops) f u c e =
    rest (passed n i m o ops c) (λ later k q. check_fixtures-untouched n (i + 1) later ops f u k q)
  where
    Rest : Type 0
    Rest =
        (later : Map String Op)
        → check_fixtures n later (i + 1) ops ≡ none
        → back (lookup f later) ≡ some u
        → untouched f u (i + 1) ops ≡ true

    rest : Passed n i m o ops → Rest → untouched f u i (o ∷ ops) ≡ true
    rest (elsewhere a d k) ih = ground (arith, ih m k e)
    rest (updates b d k) ih = elim (Bool-cases (fixture o == f)) [
      | inl same ↦ ground (arith, ih m k e, come_back-at i m o f u e b same)
      | inr other ↦ ground (arith, ih m k e)
    ]
    rest (deletes b h k) ih = elim (Bool-cases (fixture o == f)) [
      | inl same ↦ untouched-back f u i (o ∷ ops) (come_back-at i m o f u e b same)
      | inr other ↦ ground (arith, ih (insert (fixture o) o m) k (still o f m u other e))
    ]

-- A fixture that an op at `i` deletes comes back after the op, and by the last of `n` ops; none of the
-- ops that follow acts on it until then.
pub record ComesBack (n i : ℕ) (following : List Op) (d : Op) (u : ℤ) : Type 0 where
  pub after_it : ltb_ℤ (pos i) u ≡ true
  pub in_range : ltb_ℤ u (pos n) ≡ true
  pub alone : untouched (fixture d) u (i + 1) following ≡ true

out_of_range :
    (i n : ℕ) (o : Option ℤ) (u : ℤ)
    → o ≡ some u
    → holds_of (λ until. leb_ℤ until (pos i) || leb_ℤ (pos n) until) o ≡ false
    → (ltb_ℤ (pos i) u ≡ true) × (ltb_ℤ u (pos n) ≡ true)
out_of_range i n none u e h = absurd (ground arith)
out_of_range i n (some v) (pos k) e h = ground arith
out_of_range i n (some v) (negsuc k) e h = ground arith

not_deleting :
    (o : Op) → o.type ≡ OpType.delete_fixture → op_type_beq o.type OpType.delete_fixture ≡ false → ⊥
not_deleting o t b =
    let e : op_type_beq o.type OpType.delete_fixture ≡ true =
      ap (λ x. op_type_beq x OpType.delete_fixture) t in
    ground arith

held :
    (o : Op) (m : Map String Op) (u : ℤ)
    → o.until ≡ some u
    → back (lookup (fixture o) (insert (fixture o) o m)) ≡ some u
held o m u q = rw (lookup-insert (fixture o) (fixture o) o m, beq_refl (fixture o)) q

deleted_here :
    (n i : ℕ) (m : Map String Op) (o : Op) (ops : List Op) (u : ℤ)
    → o.type ≡ OpType.delete_fixture
    → o.until ≡ some u
    → Passed n i m o ops
    → ComesBack n i ops o u
deleted_here n i m o ops u t q (elsewhere a b k) = absurd (not_deleting o t b)
deleted_here n i m o ops u t q (updates a b k) = absurd (not_deleting o t b)
deleted_here n i m o ops u t q (deletes b h k) =
    let r = out_of_range i n o.until u q h in
    record {
      after_it = r.0;
      in_range = r.1;
      alone =
          check_fixtures-untouched n (i + 1) (insert (fixture o) o m) ops (fixture o) u k
            (held o m u q);
    }

following :
    (n i : ℕ) (m : Map String Op) (o : Op) (ops : List Op) {A : Type 0}
    → Passed n i m o ops
    → ((later : Map String Op) → check_fixtures n later (i + 1) ops ≡ none → A)
    → A
following n i m o ops (elsewhere a b k) f = f m k
following n i m o ops (updates a b k) f = f m k
following n i m o ops (deletes a b k) f = f (insert (fixture o) o m) k

pub deleted-ComesBack :
    (n i k : ℕ) (m : Map String Op) (ops : List Op) (d : Op) (u : ℤ)
    → check_fixtures n m i ops ≡ none
    → get_elem? ops k ≡ some d
    → d.type ≡ OpType.delete_fixture
    → d.until ≡ some u
    → ComesBack n (i + k) (drop (suc k) ops) d u
deleted-ComesBack n i k m [] d u c e t q = absurd (ground arith)
deleted-ComesBack n i zero m (o ∷ ops) d u c e t q =
    let p : o ≡ d = some-injective _ _ e in
    let here : i ≡ i + 0 = omega arith in
    subst (λ x. ComesBack n (i + 0) ops x u) p
      (subst (λ j. ComesBack n j ops o u) here
        (deleted_here n i m o ops u (ap (λ x. x.type) p ∙ t) (ap (λ x. x.until) p ∙ q)
          (passed n i m o ops c)))
deleted-ComesBack n i (suc k) m (o ∷ ops) d u c e t q =
    let there : i + 1 + k ≡ i + suc k = omega arith in
    subst (λ p. ComesBack n p (drop (suc k) ops) d u) there
      (following n i m o ops (passed n i m o ops c)
        (λ later c'. deleted-ComesBack n (i + 1) k later ops d u c' e t q))
