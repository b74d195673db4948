-- ===== src/Generate/Faulted/Inserted.antt =====
-- internal/generate/faults.go, `faulted`: where the fault stands, and when it ends.
use botbox.Base.{
  ℕ, zero, suc, ◌+◌, ◌≤◌, ◌<◌, Bool, true, false, not, ◌&&◌, Option, none, some, List, [], ◌∷◌,
  ◌++◌, ◌≡◌, refl, sym, ap, subst, ◌∙◌, ◌⊎◌, if◌then◌else◌, take, drop, get_elem?, length, In, here,
  there, arith, Bool-cases, inl, inr,
}
use mathlib.Core.Option.{some-injective}
use botbox.Base.Int.{ℤ, pos}
use botbox.Run.Sequence.{OpType, op_type_beq, Fault, Op, settles, is_one_of}
use botbox.Generate.Checkpointed.{a_settle, set_untils}
use botbox.Generate.Faulted.{
  unfaulted_starts, starts_from, eligible_starts, one_more, span, reindex, fault_op, insert_fault,
  faulted_at,
}

-- The op at s may be faulted, after one that settles.
pub data IsStart : ℕ → List Op → Type 0 where
  first :
      {o p : Op} {ops : List Op}
      → settles o ≡ true
      → is_one_of unfaulted_starts p.type ≡ false
      → IsStart 1 (o ∷ p ∷ ops)
  later : {s : ℕ} {o : Op} {ops : List Op} → IsStart s ops → IsStart (suc s) (o ∷ ops)

-- Of the first n ops, the last settles and no other does.
pub data IsSpan : ℕ → List Op → Type 0 where
  last : {o : Op} {ops : List Op} → settles o ≡ true → IsSpan 1 (o ∷ ops)
  more :
      {n : ℕ} {o : Op} {ops : List Op} → settles o ≡ false → IsSpan n ops → IsSpan (suc n) (o ∷ ops)

one_more-some : (m : Option ℕ) (n : ℕ) → one_more m ≡ some n → (k : ℕ) × (m ≡ some k) × (n ≡ suc k)
one_more-some none n h = ground arith
one_more-some (some k) n h = (k, refl, sym (some-injective _ _ h))

span-IsSpan : (ops : List Op) (n : ℕ) → span ops ≡ some n → IsSpan n ops
unfolding span
span-IsSpan [] n h = ground arith
span-IsSpan (o ∷ ops) n h = elim (Bool-cases (settles o)) [
  | inl e ↦ subst (λ k. IsSpan k (o ∷ ops)) (some-injective _ _ (rw (e) at h)) (last e)
  | inr e ↦
      let (k, at, is) = one_more-some (span ops) n (rw (e) at h) in
      rw is (more e (span-IsSpan ops k at))
]

IsSpan-le : {n : ℕ} {ops : List Op} → IsSpan n ops → n ≤ length ops
IsSpan-le (last h) = omega arith
IsSpan-le (more h rest) = omega (arith, IsSpan-le rest)

pub IsStart-lt : {s : ℕ} {ops : List Op} → IsStart s ops → s < length ops
IsStart-lt (first h u) = omega arith
IsStart-lt (later start) = omega (arith, IsStart-lt start)

In-start :
    (b : Bool) (s t : ℕ) (ts : List ℕ)
    → In t (if b then s ∷ ts else ts)
    → (b ≡ true) × (t ≡ s) ⊎ In t ts
In-start true s t ts (here e) = inl (refl, e)
In-start true s t ts (there m) = inr m
In-start false s t ts m = inr m

both : (b c : Bool) → (b && not c) ≡ true → (b ≡ true) × (c ≡ false)
both true false h = (refl, refl)
both true true h = ground arith
both false c h = ground arith

starts_from-IsStart :
    (s t : ℕ) (o : Op) (ops : List Op)
    → In t (starts_from s (settles o) ops)
    → (k : ℕ) × (t ≡ s + k) × IsStart (suc k) (o ∷ ops)
unfolding starts_from
starts_from-IsStart s t o [] m = elim m [ ]
starts_from-IsStart s t o (p ∷ ops) m =
    elim (In-start (settles o && not (is_one_of unfaulted_starts p.type)) s t _ m) [
      | inl (h, e) ↦
          let (before, free) = both (settles o) _ h in (0, omega (arith, e), first before free)
      | inr rest ↦
          let (k, e, start) = starts_from-IsStart (suc s) t p ops rest in
          (suc k, omega (arith, e), later start)
    ]

pub eligible_starts-IsStart : (s : ℕ) (ops : List Op) → In s (eligible_starts ops) → IsStart s ops
unfolding eligible_starts
eligible_starts-IsStart s [] m = elim m [ ]
eligible_starts-IsStart s (o ∷ ops) m =
    let (k, e, start) = starts_from-IsStart 1 s o ops m in
    let same : suc k ≡ s = omega (arith, e) in subst (λ n. IsStart n (o ∷ ops)) same start

length-take : {A : Type 0} (n : ℕ) (xs : List A) → n ≤ length xs → length (take n xs) ≡ n
length-take zero xs h = refl
length-take (suc n) [] h = omega arith
length-take (suc n) (x ∷ xs) h = ap suc (length-take n xs (omega arith))

shifted : (n i : ℕ) → suc n + i ≡ suc (n + i)
shifted n i = omega arith

get_elem?-after :
    {A : Type 0} (xs ys : List A) (i : ℕ) → get_elem? (xs ++ ys) (length xs + i) ≡ get_elem? ys i
get_elem?-after [] ys i = ap (get_elem? ys) (omega arith)
get_elem?-after (x ∷ xs) ys i =
    ap (get_elem? (x ∷ (xs ++ ys))) (shifted (length xs) i) ∙ get_elem?-after xs ys i

get_elem?-until :
    (b : Bool) (o p : Op) (ops : List Op) (i : ℕ)
    → get_elem? (if b then o ∷ ops else p ∷ ops) (suc i) ≡ get_elem? ops i
get_elem?-until true o p ops i = refl
get_elem?-until false o p ops i = refl

stamped_first :
    (b : Bool) (o p q : Op) (ops : List Op)
    → b ≡ false
    → get_elem? (if b then p ∷ ops else o ∷ ops) 0 ≡ some o
stamped_first b o p q ops h = rw h refl

get_elem?-set_untils :
    (f : ℕ → Op → Option ℤ) (m k : ℕ) (ops : List Op) (i : ℕ) {o : Op}
    → get_elem? ops i ≡ some o
    → op_type_beq o.type OpType.delete_fixture ≡ false
    → get_elem? (set_untils f m (reindex k ops)) i ≡ some (record o { index = pos (k + i) })
unfolding set_untils reindex
get_elem?-set_untils f m k [] i h n = ground arith
get_elem?-set_untils f m k (p ∷ ops) zero {o} h n =
    let same : p ≡ o = some-injective _ _ h in
    stamped_first (op_type_beq p.type OpType.delete_fixture) _ _ p _ (rw same n)
    ∙ ap {B = Option Op} (λ (q : Op). some (record q { index = pos k })) same
    ∙ ap (λ (j : ℕ). some (record o { index = pos j })) (omega arith)
get_elem?-set_untils f m k (p ∷ ops) (suc i) {o} h n =
    get_elem?-until (op_type_beq p.type OpType.delete_fixture) _ _ _ i
    ∙ get_elem?-set_untils f (suc m) (suc k) ops i h n
    ∙ ap (λ (j : ℕ). some (record o { index = pos j })) (omega arith)

get_elem?-past :
    {A : Type 0} (n : ℕ) (xs ys : List A) (i j : ℕ)
    → n ≤ length xs
    → n + i ≡ j
    → get_elem? (take n xs ++ ys) j ≡ get_elem? ys i
get_elem?-past n xs ys i j h e =
    let at : length (take n xs) + i ≡ j = omega (arith, length-take n xs h, e) in
    ap (get_elem? (take n xs ++ ys)) (sym at) ∙ get_elem?-after (take n xs) ys i

-- The fault, and the settle wait that ends it.
insert_fault-ends :
    (ops : List Op) (s : ℕ) (fault : Fault) (n : ℕ)
    → s ≤ length ops
    → n ≤ length (drop s ops)
    → (get_elem? (insert_fault ops s fault n) s
        ≡ some (record (fault_op fault (s + 1 + n)) { index = pos s }))
      × (get_elem? (insert_fault ops s fault n) (s + 1 + n)
          ≡ some (record a_settle { index = pos (s + 1 + n) }))
unfolding insert_fault
insert_fault-ends ops s fault n h k =
    let spanned = drop s ops in
    let faulty = fault_op fault (s + 1 + n) in
    let rest = take n spanned ++ (a_settle ∷ drop n spanned) in
    let at_start : get_elem? (take s ops ++ (faulty ∷ rest)) s ≡ some faulty =
      get_elem?-past s ops (faulty ∷ rest) 0 s h (omega arith) in
    let at_end : get_elem? (take s ops ++ (faulty ∷ rest)) (s + 1 + n) ≡ some a_settle =
      get_elem?-past s ops (faulty ∷ rest) (suc n) (s + 1 + n) h (omega arith)
      ∙ get_elem?-past n spanned (a_settle ∷ drop n spanned) 0 n k (omega arith) in
    let zero_add : (i : ℕ) → 0 + i ≡ i = λ i. omega arith in
    (
      get_elem?-set_untils _ 0 0 _ s at_start refl
          ∙ ap (λ (j : ℕ). some (record faulty { index = pos j })) (zero_add s),
      get_elem?-set_untils _ 0 0 _ (s + 1 + n) at_end refl
          ∙ ap (λ (j : ℕ). some (record a_settle { index = pos j })) (zero_add (s + 1 + n)),
    )

-- Where a fault starts at an eligible op and the ops settle from there on, it is inserted at that op's
-- place, after an op that settles and before one that may be faulted. Its fault ends at a settle
-- wait that is inserted after the first op that settles from there on.
pub faulted_at-ends :
    (ops : List Op) (s : ℕ) (fault : Fault) (n : ℕ)
    → In s (eligible_starts ops)
    → span (drop s ops) ≡ some n
    → IsStart s ops
      × IsSpan n (drop s ops)
      × (get_elem? (faulted_at ops s fault) s
          ≡ some (record (fault_op fault (s + 1 + n)) { index = pos s }))
      × (get_elem? (faulted_at ops s fault) (s + 1 + n)
          ≡ some (record a_settle { index = pos (s + 1 + n) }))
unfolding faulted_at
faulted_at-ends ops s fault n m h =
    let start = eligible_starts-IsStart s ops m in
    let spanned = span-IsSpan (drop s ops) n h in
    let ends =
      insert_fault-ends ops s fault n (omega (arith, IsStart-lt start)) (IsSpan-le spanned) in
    (start, spanned, rw h (ends.0), rw h (ends.1))
