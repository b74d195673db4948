-- ===== src/Invariant/Restart/Spread/Fair.antt =====
-- How spread shares out the bound of a report.
use mathlib.Core.Option.{some-injective}
use botbox.Base.{
  ℕ, zero, suc, ◌+◌, ◌≤◌, ◌<◌, min, true, some, List, [], ◌∷◌, length, take, ltb, ◌≡◌, refl, sym,
  ap, ◌∙◌, arith, ◌⊎◌, inl, inr, All, Bool-cases, length-append, map, ◌++◌,
}
use botbox.Invariant.Window.{max_evidence, Excerpt}
use botbox.Invariant.Restart.Spread.{
  Share, kept_all, total, turn, turns, none_kept, quoted, as_excerpt, shares, spread,
}
use botbox.Invariant.Restart.Spread.Turns.{
  IsAt, IsNear, turn-bound, turn-sum, turn-more, turn-total, turn-IsAt, turn-given,
}

module _ {ℓ} {A : Type ℓ} where
  -- What spread kept of each object: as much as of any other, or one less or more, or all that it has.
  pub record IsShared (ss : List (Share A)) (goal : ℕ) : Type ℓ where
    pub level : ℕ
    pub near : All (IsNear level) ss
    pub in_all : kept_all ss ≡ goal

  IsAt-IsNear : (r : ℕ) (ss : List (Share A)) → All (IsAt r) ss → All (IsNear r) ss
  IsAt-IsNear r [] h = tt
  IsAt-IsNear r (s ∷ ss) (h, hs) = (inl h, IsAt-IsNear r ss hs)

  kept_all-le : (r : ℕ) (ss : List (Share A)) → All (IsNear r) ss → kept_all ss ≤ total ss
  kept_all-le r [] h = omega arith
  kept_all-le r (s ∷ ss) (h, hs) = ground (arith, kept_all-le r ss hs)

  turns-IsShared :
      (fuel goal r n : ℕ) (ss : List (Share A))
      → goal ≡ min (total ss) max_evidence
      → n ≡ kept_all ss
      → n ≤ goal
      → All (IsNear r) ss
      → All (IsAt r) ss ⊎ (n ≡ max_evidence)
      → goal < fuel + n
      → (out : List (Share A)) × (turns fuel goal ss n ≡ some out) × IsShared out goal
  unfolding turns
  turns-IsShared zero goal r n ss g c b near at h = absurd (omega arith)
  turns-IsShared (suc fuel) goal r n ss g c b near at h = elim (Bool-cases (ltb n goal)) [
    | inr e ↦ (ss, rw e refl, record { level = r; near = near; in_all = ground arith })
    | inl e ↦
        let (out, q, shared) = next e at (λ r' near' at' more.
          let sum = turn-sum ss n in
          let goal' = turn-total ss n in
          let bound = turn-bound ss n (omega arith) in
          let kept = kept_all-le r' (turn ss n).0 near' in
          turns-IsShared fuel goal r' (turn ss n).1 (turn ss n).0 (omega arith) (omega arith)
            (omega arith) near' at' (omega arith)) in
        (out, rw e q, shared)
  ]
    where
      Returns : Type ℓ
      Returns =
          (out : List (Share A)) × (turns fuel goal (turn ss n).0 (turn ss n).1 ≡ some out)
          × IsShared out goal

      Later : Type ℓ
      Later =
          (r' : ℕ)
          → All (IsNear r') (turn ss n).0
          → All (IsAt r') (turn ss n).0 ⊎ ((turn ss n).1 ≡ max_evidence)
          → n < (turn ss n).1
          → Returns

      next : ltb n goal ≡ true → All (IsAt r) ss ⊎ (n ≡ max_evidence) → Later → Returns
      next e (inr full) ih = absurd (ground arith)
      next e (inl all) ih =
          let below : n < max_evidence = ground arith in
          let (all', near') = turn-IsAt r ss n (omega arith) all in
          let more = turn-more r ss n all below (ground arith) in
          elim all' [
            | inl a ↦ ih (suc r) (IsAt-IsNear (suc r) (turn ss n).0 a) (inl a) more
            | inr q ↦ ih r near' (inr q) more
          ]

  length-take_le : (n : ℕ) (xs : List A) → n ≤ length xs → length (take n xs) ≡ n
  length-take_le zero xs h = refl
  length-take_le (suc n) [] h = absurd (omega arith)
  length-take_le (suc n) (x ∷ xs) h = ap suc (length-take_le n xs (omega arith))

  length-quoted :
      (r : ℕ) (ss : List (Share A)) → All (IsNear r) ss → length (quoted ss) ≡ kept_all ss
  length-quoted r [] h = refl
  length-quoted r (s ∷ ss) (h, hs) =
      let le : s.kept ≤ length s.differences = ground arith in
      let cut = length-take_le s.kept s.differences le in
      omega (arith, length-append (take s.kept s.differences) (quoted ss), length-quoted r ss hs)

  shares_lem :
      (fuel : ℕ) (changed : List (List A))
      → 20 < fuel
      → (out : List (Share A)) × (shares fuel changed ≡ some out)
        × IsShared out (min (total (none_kept changed)) max_evidence)
  unfolding shares
  shares_lem fuel changed h =
      let goal = min (total (none_kept changed)) max_evidence in
      turns-IsShared fuel goal 0 0 (none_kept changed) refl (none_yet changed) (omega arith)
        (IsAt-IsNear 0 (none_kept changed) (start changed)) (inl (start changed)) (omega arith)
    where
      none_yet : (changed : List (List A)) → 0 ≡ kept_all (none_kept changed)
      none_yet [] = refl
      none_yet (ds ∷ rest) = omega (arith, none_yet rest)

      start : (changed : List (List A)) → All (IsAt 0) (none_kept changed)
      start [] = tt
      start (ds ∷ rest) = (omega arith, start rest)

  -- The differences that the shares are of.
  abbrev pub given : List (Share A) → List (List A)
  given ss = map (λ (s : Share A). s.differences) ss

  abbrev pub all_of : List (List A) → List A
  all_of [] = []
  all_of (ds ∷ rest) = ds ++ all_of rest

  turns-given :
      (fuel goal n : ℕ) (ss out : List (Share A))
      → turns fuel goal ss n ≡ some out
      → given out ≡ given ss
  unfolding turns
  turns-given zero goal n ss out h = absurd (ground arith)
  turns-given (suc fuel) goal n ss out h = elim (Bool-cases (ltb n goal)) [
    | inr e ↦ ap given (sym (some-injective _ _ (rw (e) at h)))
    | inl e ↦ turns-given fuel goal (turn ss n).1 (turn ss n).0 out (rw (e) at h) ∙ turn-given ss n
  ]

  none_kept-given : (changed : List (List A)) → given (none_kept changed) ≡ changed
  none_kept-given [] = refl
  none_kept-given (ds ∷ rest) = ap (λ l. ds ∷ l) (none_kept-given rest)

  shares-given :
      (fuel : ℕ) (changed : List (List A)) (out : List (Share A))
      → shares fuel changed ≡ some out
      → given out ≡ changed
  unfolding shares
  shares-given fuel changed out h =
      turns-given fuel _ 0 (none_kept changed) out h ∙ none_kept-given changed

  total-all_of : (changed : List (List A)) → total (none_kept changed) ≡ length (all_of changed)
  total-all_of [] = refl
  total-all_of (ds ∷ rest) = omega (arith, total-all_of rest, length-append ds (all_of rest))

  -- What is quoted of objects whose differences are these: the first of each, this many.
  abbrev pub firsts : List ℕ → List (List A) → List A
  firsts [] changed = []
  firsts (k ∷ ks) [] = []
  firsts (k ∷ ks) (ds ∷ changed) = take k ds ++ firsts ks changed

  abbrev pub kepts : List (Share A) → List ℕ
  kepts ss = map (λ (s : Share A). s.kept) ss

  quoted-firsts : (ss : List (Share A)) → quoted ss ≡ firsts (kepts ss) (given ss)
  quoted-firsts [] = refl
  quoted-firsts (s ∷ ss) = ap (λ l. take s.kept s.differences ++ l) (quoted-firsts ss)

  -- With fuel for more than 20 turns, spread returns. It quotes 20 differences, or all where there are
  -- fewer, with the exact total of those it was given, and shares them out: it quotes the first of each
  -- object in the order of the objects, and there is a number of which it keeps that many, or one more, of
  -- each object, or all that the object has.
  pub spread-IsShared :
      (fuel : ℕ) (changed : List (List A))
      → 20 < fuel
      → (e : Excerpt A) × (ss : List (Share A)) × (spread fuel changed ≡ some e)
        × (given ss ≡ changed)
        × (e.total ≡ length (all_of changed))
        × (e.quoted ≡ firsts (kepts ss) changed)
        × (length e.quoted ≡ min e.total 20)
        × IsShared ss (length e.quoted)
  unfolding spread
  spread-IsShared fuel changed h =
      let (ss, q, shared) = shares_lem fuel changed h in
      let sum = length-quoted shared.level ss shared.near ∙ shared.in_all in
      let same = shares-given fuel changed ss q in
      (
        record { quoted = quoted ss; total = total (none_kept changed) },
        ss,
        ap (as_excerpt (total (none_kept changed))) q,
        same,
        total-all_of changed,
        quoted-firsts ss ∙ ap (firsts (kepts ss)) same,
        sum,
        record { level = shared.level; near = shared.near; in_all = shared.in_all ∙ sym sum },
      )
