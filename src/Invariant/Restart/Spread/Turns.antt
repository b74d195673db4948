-- ===== src/Invariant/Restart/Spread/Turns.antt =====
-- What one turn of the objects keeps.
use botbox.Base.{
  ℕ, suc, ◌+◌, ◌≤◌, ◌<◌, min, Bool, true, false, ◌&&◌, List, [], ◌∷◌, map, ap, length, ltb,
  if◌then◌else◌, ◌≡◌, refl, arith, ◌⊎◌, inl, inr, All, Bool-cases,
}
use botbox.Invariant.Window.{max_evidence}
use botbox.Invariant.Restart.Spread.{Share, kept_all, total, turn}

module _ {ℓ} {A : Type ℓ} where
  -- After r turns: r of each object, or all that it has.
  abbrev pub IsAt : ℕ → Share A → Type 0
  IsAt r s = s.kept ≡ min r (length s.differences)

  -- Amid the next.
  abbrev pub IsNear : ℕ → Share A → Type 0
  IsNear r s =
      (s.kept ≡ min r (length s.differences)) ⊎ (s.kept ≡ min (suc r) (length s.differences))

  pub turn-on : (ss : List (Share A)) (n : ℕ) → n ≤ (turn ss n).1
  unfolding turn
  turn-on [] n = omega arith
  turn-on (s ∷ ss) n = ground (arith, turn-on ss n, turn-on ss (suc n))

  pub turn-bound : (ss : List (Share A)) (n : ℕ) → n ≤ max_evidence → (turn ss n).1 ≤ max_evidence
  unfolding turn
  turn-bound [] n h = h
  turn-bound (s ∷ ss) n h = ground (arith, turn-bound ss n, turn-bound ss (suc n))

  -- Each one counted is one kept.
  pub turn-sum :
      (ss : List (Share A)) (n : ℕ) → (turn ss n).1 + kept_all ss ≡ n + kept_all (turn ss n).0
  unfolding turn
  turn-sum [] n = omega arith
  turn-sum (s ∷ ss) n = ground (arith, turn-sum ss n, turn-sum ss (suc n))

  pub turn-more :
      (r : ℕ) (ss : List (Share A)) (n : ℕ)
      → All (IsAt r) ss
      → n < max_evidence
      → kept_all ss < total ss
      → n < (turn ss n).1
  unfolding turn
  turn-more r [] n h k l = absurd (omega arith)
  turn-more r (s ∷ ss) n (h, hs) k l = ground (arith, turn-on ss (suc n), turn-more r ss n hs k)

  pub turn-total : (ss : List (Share A)) (n : ℕ) → total (turn ss n).0 ≡ total ss
  unfolding turn
  turn-total [] n = refl
  turn-total (s ∷ ss) n = ground (arith, turn-total ss n, turn-total ss (suc n))

  -- No turn changes what the differences are.
  pub turn-given :
      (ss : List (Share A)) (n : ℕ)
      → map (λ (s : Share A). s.differences) (turn ss n).0 ≡ map (λ (s : Share A). s.differences) ss
  unfolding turn
  turn-given [] n = refl
  turn-given (s ∷ ss) n =
      by (ltb s.kept (length s.differences) && ltb n max_evidence) (turn-given ss)
    where
      by :
          (more : Bool)
          → ((m : ℕ)
              → map (λ (s : Share A). s.differences) (turn ss m).0
                ≡ map (λ (s : Share A). s.differences) ss)
          → map
              (λ (s : Share A). s.differences)
              ((if more then record s { kept = suc s.kept } else s)
                ∷ (turn ss (if more then suc n else n)).0)
            ≡ map (λ (s : Share A). s.differences) (s ∷ ss)
      by true ih = ap (λ l. s.differences ∷ l) (ih (suc n))
      by false ih = ap (λ l. s.differences ∷ l) (ih n)

  pub turn-IsAt :
      (r : ℕ) (ss : List (Share A)) (n : ℕ)
      → n ≤ max_evidence
      → All (IsAt r) ss
      → (All (IsAt (suc r)) (turn ss n).0 ⊎ ((turn ss n).1 ≡ max_evidence))
        × All (IsNear r) (turn ss n).0
  unfolding turn
  turn-IsAt r [] n b h = (inl tt, tt)
  turn-IsAt r (s ∷ ss) n b (h, hs) =
      by (ltb s.kept (length s.differences) && ltb n max_evidence) refl
        (λ m k. turn-IsAt r ss m k hs)
    where
      Goal : Bool → Type 0
      Goal more =
          let rest = turn ss (if more then suc n else n) in
          let first = if more then record s { kept = suc s.kept } else s in
          ((IsAt (suc r) first × All (IsAt (suc r)) rest.0) ⊎ (rest.1 ≡ max_evidence))
          × (IsNear r first × All (IsNear r) rest.0)

      Later : Type 0
      Later =
          (m : ℕ)
          → m ≤ max_evidence
          → (All (IsAt (suc r)) (turn ss m).0 ⊎ ((turn ss m).1 ≡ max_evidence))
            × All (IsNear r) (turn ss m).0

      by :
          (more : Bool)
          → (ltb s.kept (length s.differences) && ltb n max_evidence) ≡ more
          → Later
          → Goal more
      by true e ih =
          let now : suc s.kept ≡ min (suc r) (length s.differences) = ground arith in
          let (all, near) = ih (suc n) (ground arith) in
          (elim all [ inl a ↦ inl (now, a) | inr q ↦ inr q ], (inr now, near))
      by false e ih =
          let (all, near) = ih n b in
          elim (Bool-cases (ltb s.kept (length s.differences))) [
            | inr full ↦
                let same : s.kept ≡ min (suc r) (length s.differences) = ground arith in
                (elim all [ inl a ↦ inl (same, a) | inr q ↦ inr q ], (inl h, near))
            | inl more ↦
                let on = turn-on ss n in
                let bound = turn-bound ss n b in
                let none_left : n ≡ max_evidence = ground arith in
                let stays : (turn ss n).1 ≡ max_evidence = omega arith in (inr stays, (inl h, near))
          ]
