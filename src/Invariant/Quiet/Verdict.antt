-- ===== src/Invariant/Quiet/Verdict.antt =====
-- When the checks of a quiet window report it.
use mathlib.Core.List.{filter_map}
use botbox.Base.{
  In, here, there, ◌++◌, ◌||◌, sym, ap, ◌∙◌, take, take-append-drop, ltb, min, if◌then◌else◌, ℕ,
  ◌≤◌, ◌<◌, ◌≡◌, refl, Bool, true, false, not, ◌&&◌, Option, none, some, List, [], ◌∷◌, arith, All,
  All-get_elem?, length, leb, is_some, get_elem?, get_elem?-lt, length-drop, all, ◌-◌, filter_by,
  Bool-cases, inl, inr,
}
use botbox.Proxy.Request.{Request}
use botbox.Invariant.{Input, quiet_allowance}
use botbox.Invariant.Window.{Quiet, quiet_windows, recent, max_evidence}
use botbox.Invariant.Running.{reconciles}
use botbox.Invariant.Quiet.{
  Violation, inside, requests_in, too_many, beyond, bounded_reconciliation,
}

-- The requests that count in a quiet window, its ends included.
abbrev pub counting : Input → Quiet → List Request
counting inp w =
    filter_by (λ r. not (ltb r.start w.start) && (not (ltb w.end r.start) && reconciles r))
      inp.requests

-- A violation is of a quiet window: the requests that count there are as many as it says, and over the
-- allowance, and it is at the first of them beyond the allowance. Its evidence is the latest of them, 20
-- or all where there are fewer.
pub record IsExcess (inp : Input) (v : Violation Request) : Type 0 where
  pub of_quiet : In v.window (quiet_windows inp)
  pub over : quiet_allowance inp < v.times
  pub counted : v.times ≡ length (counting inp v.window)
  pub request : Request
  pub is_first_beyond : get_elem? (counting inp v.window) (quiet_allowance inp) ≡ some request
  pub at_request : v.at ≡ request.start
  pub in_window : (v.window.start ≤ request.start) × (request.start ≤ v.window.end)
  pub unquoted : List Request
  pub quoted_latest : counting inp v.window ≡ unquoted ++ v.evidence.quoted
  pub quoted : length v.evidence.quoted ≡ min (length (counting inp v.window)) 20

-- What `recent` quotes comes last, and is as many as the bound, or all.
IsRecent : List Request → List Request → Type 0
IsRecent rs quoted =
    (unquoted : List Request) × (rs ≡ unquoted ++ quoted) × (length quoted ≡ min (length rs) 20)

recent-IsRecent : (rs : List Request) → IsRecent rs (recent rs).quoted
unfolding recent IsRecent
recent-IsRecent rs = elim (Bool-cases (ltb max_evidence (length rs))) [
  | inl e ↦ rw e (
    take (length rs - max_evidence) rs,
    sym (take-append-drop (length rs - max_evidence) rs),
    ground (arith, length-drop {0} (length rs - max_evidence) rs),
  )
  | inr e ↦ rw e ([], refl, ground arith)
]

by_ends : (a b c : Bool) → (not (a || b) && c) ≡ (not a && (not b && c))
by_ends true b c = refl
by_ends false true c = refl
by_ends false false c = refl

requests_in-counting : (inp : Input) (w : Quiet) → requests_in inp w reconciles ≡ counting inp w
unfolding requests_in
requests_in-counting inp w = go inp.requests
  where
    go :
        (rs : List Request)
        → filter_by (λ r. inside w r.start && reconciles r) rs
          ≡ filter_by
              (λ r. not (ltb r.start w.start) && (not (ltb w.end r.start) && reconciles r))
              rs
    go [] = refl
    go (r ∷ rs) =
        ap
          (λ b.
            if b
            then r ∷ filter_by (λ r. inside w r.start && reconciles r) rs
            else filter_by (λ r. inside w r.start && reconciles r) rs)
          (by_ends (ltb r.start w.start) (ltb w.end r.start) (reconciles r))
        ∙ ap
            (λ l.
              if not (ltb r.start w.start) && (not (ltb w.end r.start) && reconciles r)
              then r ∷ l
              else l)
            (go rs)

counting-inside :
    (inp : Input) (w : Quiet)
    → All (λ (r : Request). (w.start ≤ r.start) × (r.start ≤ w.end)) (counting inp w)
counting-inside inp w = go inp.requests
  where
    go :
        (rs : List Request)
        → All
            (λ (r : Request). (w.start ≤ r.start) × (r.start ≤ w.end))
            (filter_by
              (λ r. not (ltb r.start w.start) && (not (ltb w.end r.start) && reconciles r))
              rs)
    go [] = tt
    go (r ∷ rs) =
        elim (Bool-cases (not (ltb r.start w.start) && (not (ltb w.end r.start) && reconciles r))) [
          | inl e ↦ rw e (ground arith, go rs)
          | inr e ↦ rw e (go rs)
        ]

abbrev Excess : Input → Option (Violation Request) → Type 0
Excess inp none = Unit
Excess inp (some v) = IsExcess inp v

beyond-Excess :
    (inp : Input) (w : Quiet) (o : Option Request)
    → In w (quiet_windows inp)
    → get_elem? (counting inp w) (quiet_allowance inp) ≡ o
    → quiet_allowance inp < length (counting inp w)
    → Excess inp (beyond (quiet_allowance inp) w (counting inp w) o)
unfolding IsRecent
beyond-Excess inp w none m e h = tt
beyond-Excess inp w (some r) m e h =
    let (older, all, bound) = recent-IsRecent (counting inp w) in
    record {
      of_quiet = m;
      over = h;
      counted = refl;
      request = r;
      is_first_beyond = e;
      at_request = refl;
      in_window =
          All-get_elem? (λ (q : Request). (w.start ≤ q.start) × (q.start ≤ w.end)) _
            (quiet_allowance inp) e (counting-inside inp w);
      unquoted = older;
      quoted_latest = all;
      quoted = bound;
    }

too_many-Excess :
    (inp : Input) (w : Quiet)
    → In w (quiet_windows inp)
    → Excess inp (too_many (quiet_allowance inp) w (counting inp w))
unfolding too_many
too_many-Excess inp w m =
    let noisy = counting inp w in
    elim (Bool-cases (leb (length noisy) (quiet_allowance inp))) [
      | inl e ↦ rw e tt
      | inr e ↦
          rw e (beyond-Excess inp w (get_elem? noisy (quiet_allowance inp)) m refl (ground arith))
    ]

beyond-is_some :
    (n : ℕ) (w : Quiet) (rs : List Request)
    → n < length rs
    → is_some (beyond n w rs (get_elem? rs n)) ≡ true
beyond-is_some n w rs h = let (r, e) = get_elem?-lt rs n h in rw e

too_many-is_some :
    (n : ℕ) (w : Quiet) (rs : List Request) → is_some (too_many n w rs) ≡ not (leb (length rs) n)
unfolding too_many
too_many-is_some n w rs = elim (Bool-cases (leb (length rs) n)) [
  | inl e ↦ rw e
  | inr e ↦ rw e (beyond-is_some n w rs (ground arith))
]

abbrev pub is_nil {ℓ} : {A : Type ℓ} → List A → Bool
is_nil [] = true
is_nil (x ∷ xs) = false

abbrev found : Input → Quiet → Option (Violation Request)
found inp w = too_many (quiet_allowance inp) w (requests_in inp w reconciles)

found-Excess : (inp : Input) (w : Quiet) → In w (quiet_windows inp) → Excess inp (found inp w)
found-Excess inp w m = rw (requests_in-counting inp w) (too_many-Excess inp w m)

found-is_some :
    (inp : Input) (w : Quiet)
    → is_some (found inp w) ≡ not (leb (length (counting inp w)) (quiet_allowance inp))
found-is_some inp w =
    rw (requests_in-counting inp w) (too_many-is_some (quiet_allowance inp) w (counting inp w))

pushed :
    (inp : Input) (w : Quiet) (ws : List Quiet) (o : Option (Violation Request))
    → found inp w ≡ o
    → Excess inp o
    → (is_nil (filter_map (found inp) ws)
        ≡ all ws (λ w. leb (length (counting inp w)) (quiet_allowance inp)))
    → All (IsExcess inp) (filter_map (found inp) ws)
    → (is_nil (filter_map (found inp) (w ∷ ws))
        ≡ all (w ∷ ws) (λ w. leb (length (counting inp w)) (quiet_allowance inp)))
      × All (IsExcess inp) (filter_map (found inp) (w ∷ ws))
unfolding filter_map
pushed inp w ws none e x n a = let some? = found-is_some inp w in rw e (ground arith, a)
pushed inp w ws (some v) e x n a = let some? = found-is_some inp w in rw e (ground arith, (x, a))

filter_map-found :
    (inp : Input) (ws : List Quiet)
    → ((w : Quiet) → In w ws → In w (quiet_windows inp))
    → (is_nil (filter_map (found inp) ws)
        ≡ all ws (λ w. leb (length (counting inp w)) (quiet_allowance inp)))
      × All (IsExcess inp) (filter_map (found inp) ws)
unfolding filter_map
filter_map-found inp [] up = (refl, tt)
filter_map-found inp (w ∷ ws) up =
    let (n, a) = filter_map-found inp ws (λ x m. up x (there m)) in
    pushed inp w ws (found inp w) refl (found-Excess inp w (up w (here refl))) n a

-- The check passes exactly where no quiet window has more counting requests than thresholds.quiet
-- allows. Each report is of a quiet window with more, with their exact count, at the first request beyond
-- the allowance, which lies inside the window, its ends included. It quotes the latest 20 of them, or all
-- where there are fewer.
pub bounded_reconciliation_lem :
    (inp : Input)
    → (is_nil (bounded_reconciliation inp)
        ≡ all (quiet_windows inp) (λ w. leb (length (counting inp w)) (quiet_allowance inp)))
      × All (IsExcess inp) (bounded_reconciliation inp)
unfolding bounded_reconciliation
bounded_reconciliation_lem inp = filter_map-found inp (quiet_windows inp) (λ w m. m)
