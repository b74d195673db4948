-- ===== src/Invariant/Restart/Spread.antt =====
-- `spread` of internal/invariant/g5.go: the differences that a report quotes, one of each object in turn.
pub mod Turns
pub mod Fair
use botbox.Base.{
  ℕ, zero, suc, ◌+◌, min, Bool, true, false, ◌&&◌, Option, none, some, List, [], ◌∷◌, ◌++◌, map,
  length, take, ltb, if◌then◌else◌,
}
use botbox.Invariant.Window.{max_evidence, Excerpt}

-- An object's differences, and how many of them are kept.
pub record Share {ℓ} (A : Type ℓ) : Type ℓ where
  pub kept : ℕ
  pub differences : List A

module _ {ℓ} {A : Type ℓ} where
  abbrev pub kept_all : List (Share A) → ℕ
  kept_all [] = 0
  kept_all (s ∷ ss) = s.kept + kept_all ss

  abbrev pub total : List (Share A) → ℕ
  total [] = 0
  total (s ∷ ss) = length s.differences + total ss

  -- The inner loop: one more of each object that has more, up to the bound.
  unfoldable pub turn : List (Share A) → ℕ → List (Share A) × ℕ
  turn [] n = ([], n)
  turn (s ∷ ss) n =
      let more = ltb s.kept (length s.differences) && ltb n max_evidence in
      let rest = turn ss (if more then suc n else n) in
      ((if more then record s { kept = suc s.kept } else s) ∷ rest.0, rest.1)

  -- The outer loop.
  unfoldable pub turns : ℕ → ℕ → List (Share A) → ℕ → Option (List (Share A))
  unfolding turn
  turns zero goal ss n = none
  turns (suc fuel) goal ss n =
      let next = turn ss n in
      let rest = turns fuel goal next.0 next.1 in if ltb n goal then rest else some ss

  abbrev pub none_kept : List (List A) → List (Share A)
  none_kept changed = map (λ ds. record { kept = 0; differences = ds }) changed

  abbrev pub quoted : List (Share A) → List A
  quoted [] = []
  quoted (s ∷ ss) = take s.kept s.differences ++ quoted ss

  abbrev pub as_excerpt : ℕ → Option (List (Share A)) → Option (Excerpt A)
  as_excerpt n none = none
  as_excerpt n (some ss) = some (record { quoted = quoted ss; total = n })

  unfoldable pub shares : ℕ → List (List A) → Option (List (Share A))
  unfolding turns
  shares fuel changed =
      turns fuel (min (total (none_kept changed)) max_evidence) (none_kept changed) 0

  -- `spread`, of the differences of each changed object.
  unfoldable pub spread : ℕ → List (List A) → Option (Excerpt A)
  unfolding shares
  spread fuel changed = as_excerpt (total (none_kept changed)) (shares fuel changed)
