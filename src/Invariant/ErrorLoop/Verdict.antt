-- ===== src/Invariant/ErrorLoop/Verdict.antt =====
-- What the check reports of one failing request.
use botbox.Base.{
  ℕ, ◌≤◌, ◌≡◌, ap, ◌∙◌, ◌||◌, List, [], ◌∷◌, arith, any, length, ltb, is_some, if◌then◌else◌,
  Bool-cases, inl, inr,
}
use botbox.Base.Sort.{sort_by, insert_by}
use botbox.Clock.{Time}
use botbox.Proxy.Request.{Request}
use botbox.Invariant.{Input, settle_timeout, err_loop}
use botbox.Invariant.ErrorLoop.{RequestKey, densest, judge, violation_of, starts_before}
use botbox.Invariant.ErrorLoop.Densest.{IsSortedFrom, bursts, longest, densest_lem}

violation_of-is_some :
    (inp : Input) (key : RequestKey) (burst : List Request)
    → is_some (violation_of inp key burst) ≡ ltb (err_loop inp) (length burst)
violation_of-is_some inp key [] = ground arith
violation_of-is_some inp key (r ∷ rs) = ground arith

any-longest :
    (n : ℕ) (best : List Request) (bs : List (List Request))
    → ltb n (length (longest best bs)) ≡ (ltb n (length best) || any bs (λ b. ltb n (length b)))
any-longest n best [] = ground arith
any-longest n best (b ∷ bs) =
    ground (arith, any-longest n (if ltb (length best) (length b) then b else best) bs)

IsSortedFrom-insert :
    (t : Time) (r : Request) (rs : List Request)
    → t ≤ r.start
    → IsSortedFrom t rs
    → IsSortedFrom t (insert_by starts_before r rs)
IsSortedFrom-insert t r [] h s = (h, tt)
IsSortedFrom-insert t r (q ∷ rs) h (le, s) = elim (Bool-cases (starts_before q r)) [
  | inl e ↦ rw e (le, IsSortedFrom-insert q.start r rs (ground arith) s)
  | inr e ↦ rw e (h, (ground arith, s))
]

pub IsSortedFrom-sort_by : (rs : List Request) → IsSortedFrom 0 (sort_by starts_before rs)
IsSortedFrom-sort_by [] = tt
IsSortedFrom-sort_by (r ∷ rs) =
    IsSortedFrom-insert 0 r (sort_by starts_before rs) (omega arith) (IsSortedFrom-sort_by rs)

-- The check reports the failing requests of one group, in the order of their starts, exactly where one
-- of them ends a burst of more than thresholds.errloop of them within timeouts.settle.
pub judge_lem :
    (inp : Input) (key : RequestKey) (rs : List Request)
    → is_some (judge inp (record { key = key; requests = sort_by starts_before rs }))
      ≡ any
          (bursts (settle_timeout inp) [] (sort_by starts_before rs))
          (λ b. ltb (err_loop inp) (length b))
unfolding judge
judge_lem inp key rs =
    let sorted = sort_by starts_before rs in
    let window = settle_timeout inp in
    let found = densest_lem window sorted (IsSortedFrom-sort_by rs) in
    violation_of-is_some inp key (densest sorted window)
    ∙ ap (λ (b : List Request). ltb (err_loop inp) (length b)) found.0
    ∙ any-longest (err_loop inp) [] (bursts window [] sorted)
    ∙ ground arith
