-- ===== src/Run/Shrink/Ends.antt =====
-- Shrinking ends, and what it returns is a reproducer.
use botbox.Base.{
  ℕ, zero, suc, ◌+◌, ◌<◌, ◌≤◌, ◌≡◌, refl, String, Bool, true, false, ◌||◌, Option, none, some, List,
  [], ◌∷◌, arith, length, get_elem?, ◌∙◌, set, length-set, get_elem?-set_self, lt-of_get_elem?, ◌⊎◌,
  inl, inr, Bool-cases, All,
}
use text.Mathlib.TextEquality.{eq_iff}
use botbox.Run.Sequence.{Op, Sequence}
use botbox.Run.Sequence.Validate.{Libraries, validate}
use botbox.Run.Shrink.{
  Environment, Outcome, no_violation, violated, is_violation, Axis, reproduces, refused,
  reproducing, milder, milder_op, milder_at, try_milder, on_found, Simplified, weaken_along,
  weaken_axes, weaken, pass_from, shrink_pass, shrink, halvings, without, with_op, axis_value,
  is_fault_op,
}
use botbox.Run.Shrink.Milder.{IsMilder, milder-IsMilder}
use botbox.Run.Shrink.Weight.{weight, without-weight, length-without, set-weight}

abbrev bit : Bool → ℕ
bit true = 1
bit false = 0

module _ (lib : Libraries) (env : Environment) (id : String) where
  open env use {World, replay, expired}

  -- A legal sequence that a replay saw fail the check of this ID.
  abbrev pub Replayed : Sequence → Type 0
  Replayed s = (validate lib [] s ≡ none) × ((w : World) × ((replay s w).0 ≡ violated id))

  abbrev Found : (Sequence → Type 0) → Option Sequence → Type 0
  Found Q none = Unit
  Found Q (some c) = Replayed c × Q c

  is_violation-eq : (o : Outcome) → is_violation lib env id o ≡ true → o ≡ violated id
  is_violation-eq no_violation h = cc
  is_violation-eq (violated other) h = ground (arith, eq_iff other id)

  accepted :
      (i : ℕ) (s c : Sequence) (w : World)
      → refused lib env i c s ≡ false
      → (reproduces lib env id c w).0 ≡ true
      → Replayed c
  unfolding refused reproduces
  accepted i s c w legal h = (ground arith, (w, is_violation-eq (replay c w).0 h))

  -- What `reproducing` returns was replayed, and is one of the candidates.
  reproducing-Found :
      (Q : Sequence → Type 0) (i : ℕ) (s : Sequence) (cs : List Sequence) (w : World)
      → All Q cs
      → Found Q (reproducing lib env id i s cs w).0
  unfolding reproducing
  reproducing-Found Q i s [] w q = tt
  reproducing-Found Q i s (c ∷ cs) w (q, qs) =
      let skip = reproducing-Found Q i s cs w qs in
      let w1 = (reproduces lib env id c w).1 in
      let next = reproducing-Found Q i s cs (expired w1).1 qs in
      elim (Bool-cases (refused lib env i c s)) [
        | inl e ↦ rw e skip
        | inr e ↦ rw e (elim (Bool-cases (reproduces lib env id c w).0) [
          | inl f ↦ rw f (accepted i s c w e f, q)
          | inr f ↦ rw f (elim (Bool-cases (expired w1).0) [ inl g ↦ rw g tt | inr g ↦ rw g next ])
        ])
      ]

  module _ (P : Sequence → Type 0) (keep : (s : Sequence) → Replayed s → P s) where
    -- A step from `s`: the sequence it hands on is kept, and weighs less where it was simplified.
    abbrev Moves : Sequence → Bool → Simplified lib env → Type 0
    Moves s b r = P r.0 × (weight r.0 + bit r.1 ≤ weight s + bit b)

    -- A step that keeps the number of ops.
    abbrev Weakens : Sequence → Bool → Simplified lib env → Type 0
    Weakens s b r = Moves s b r × (length r.0.ops ≡ length s.ops)

    Moves-trans :
        (s : Sequence) (b : Bool) (m r : Simplified lib env)
        → weight m.0 + bit m.1 ≤ weight s + bit b
        → Moves m.0 m.1 r
        → Moves s b r
    Moves-trans s b m r h k = (k.0, omega arith)

    Weakens-trans :
        (s : Sequence) (b : Bool) (m r : Simplified lib env)
        → weight m.0 + bit m.1 ≤ weight s + bit b
        → length m.0.ops ≡ length s.ops
        → Weakens m.0 m.1 r
        → Weakens s b r
    Weakens-trans s b m r h e k = (Moves-trans s b m r h k.0, k.1 ∙ e)

    on_found-case :
        (Q : Sequence → Type 0) (R : Simplified lib env → Type 0)
        → (next : Sequence → Simplified lib env) (stay : Simplified lib env) (o : Option Sequence)
        → R stay
        → Found Q o
        → ((c : Sequence) → Replayed c → Q c → R (next c))
        → R (on_found lib env next stay o)
    on_found-case Q R next stay none h f k = h
    on_found-case Q R next stay (some c) h f k = k c f.0 f.1

    abbrev IsLighter : Sequence → Sequence → Type 0
    IsLighter s c = (weight c < weight s) × (length c.ops ≡ length s.ops)

    -- Every candidate of a halving is lighter.
    milder_at-IsLighter :
        (a : Axis) (i : ℕ) (s : Sequence) (o : Option Op)
        → get_elem? s.ops i ≡ o
        → (w : World) → Found (IsLighter s) (try_milder lib env id i s w (milder_op a o)).0
    milder_at-IsLighter a i s none e w = tt
    milder_at-IsLighter a i s (some o) e w = tried (milder a o) (milder-IsMilder a o)
      where
        tried :
            (m : Option Op) → IsMilder a o m → Found (IsLighter s) (try_milder lib env id i s w m).0
        tried none h = tt
        tried (some m) h =
            reproducing-Found (IsLighter s) i s (with_op s i m ∷ []) w
              ((set-weight s.ops i m e h.0, length-set s.ops i m), tt)

    weaken_along-Weakens :
        (fuel i : ℕ) (a : Axis) (s : Sequence) (b : Bool) (w : World)
        → P s
        → Weakens s b (weaken_along lib env fuel id i a s b w)
    unfolding weaken_along
    weaken_along-Weakens zero i a s b w p = ((p, omega arith), refl)
    weaken_along-Weakens (suc fuel) i a s b w p =
        let w1 = (expired w).1 in
        let found = try_milder lib env id i s w1 (milder_at lib env a i s) in
        let next = λ (c : Sequence). weaken_along lib env fuel id i a c true found.1 in
        elim (Bool-cases (expired w).0) [
          | inl e ↦ rw e ((p, omega arith), refl)
          | inr e ↦ rw e (
              on_found-case (IsLighter s) (Weakens s b) next (s, b, found.1) found.0
                ((p, omega arith), refl) (milder_at-IsLighter a i s (get_elem? s.ops i) refl w1)
                λ c r q.
                  Weakens-trans s b (c, true, found.1) (next c) (ground arith) q.1
                    (weaken_along-Weakens fuel i a c true found.1 (keep c r)))
        ]

    weaken_axes-Weakens :
        (axes : List Axis) (i : ℕ) (s : Sequence) (b : Bool) (w : World)
        → P s
        → Weakens s b (weaken_axes lib env axes id i s b w)
    unfolding weaken_axes
    weaken_axes-Weakens [] i s b w p = ((p, omega arith), refl)
    weaken_axes-Weakens (a ∷ axes) i s b w p =
        let fuel = suc (axis_value lib env a (get_elem? s.ops i)) in
        let m = weaken_along lib env fuel id i a s b w in
        let one = weaken_along-Weakens fuel i a s b w p in
        Weakens-trans s b m (weaken_axes lib env axes id i m.0 m.1 m.2) one.0.1 one.1
          (weaken_axes-Weakens axes i m.0 m.1 m.2 one.0.0)

    weaken-Weakens :
        (i : ℕ) (s : Sequence) (w : World) → P s → Weakens s false (weaken lib env id i s w)
    unfolding weaken
    weaken-Weakens i s w p = elim (Bool-cases (is_fault_op (get_elem? s.ops i))) [
      | inl e ↦ rw e (weaken_axes-Weakens halvings i s false w p)
      | inr e ↦ rw e ((p, omega arith), refl)
    ]

    abbrev IsShorter : Sequence → Sequence → Type 0
    IsShorter s c = (weight c < weight s) × (suc (length c.ops) ≡ length s.ops)

    pass_from-Moves :
        (left i : ℕ) (s : Sequence) (b : Bool) (w : World)
        → i + left ≡ length s.ops
        → P s
        → Moves s b (pass_from lib env left id i s b w)
    unfolding pass_from
    pass_from-Moves zero i s b w e p = (p, omega arith)
    pass_from-Moves (suc left) i s b w e p =
        let w1 = (expired w).1 in
        let found = reproducing lib env id i s (without s i ∷ []) w1 in
        let short : IsShorter s (without s i) =
          (without-weight s i (omega arith), length-without s i (omega arith)) in
        let m = weaken lib env id i s found.1 in
        let weakened = weaken-Weakens i s found.1 p in
        let next = λ (c : Sequence). pass_from lib env left id i c true found.1 in
        let past = pass_from lib env left id (suc i) m.0 (b || m.1) m.2 in
        let stay : Moves s b past =
          Moves-trans s b (m.0, b || m.1, m.2) past (ground (arith, weakened.0.1))
            (pass_from-Moves left (suc i) m.0 (b || m.1) m.2 (omega (arith, weakened.1))
              weakened.0.0) in
        elim (Bool-cases (expired w).0) [
          | inl h ↦ rw h (p, omega arith)
          | inr h ↦ rw h (
              on_found-case (IsShorter s) (Moves s b) next past found.0 stay
                (reproducing-Found (IsShorter s) i s (without s i ∷ []) w1 (short, tt))
                λ c r q.
                  Moves-trans s b (c, true, found.1) (next c) (ground arith)
                    (pass_from-Moves left i c true found.1 (omega (arith, q.1)) (keep c r)))
        ]

    shrink_pass-Moves :
        (s : Sequence) (w : World) → P s → Moves s false (shrink_pass lib env id s w)
    unfolding shrink_pass
    shrink_pass-Moves s w p = pass_from-Moves (length s.ops) 0 s false w (omega arith) p

    -- The fuel is enough: each further pass starts from a lighter sequence.
    shrink_ends :
        (fuel : ℕ) (s : Sequence) (w : World)
        → weight s < fuel
        → P s
        → (r : Sequence × World) × (shrink lib env fuel id s w ≡ some r)
          × P r.0
          × (weight r.0 ≤ weight s)
    unfolding shrink
    shrink_ends zero s w h p = absurd (omega arith)
    shrink_ends (suc fuel) s w h p =
        let m = shrink_pass lib env id s w in
        let moved = shrink_pass-Moves s w p in
        elim (Bool-cases m.1) [
          | inl e ↦
              let lighter : weight m.0 < weight s = ground arith in
              let (r, ends, kept, light) = shrink_ends fuel m.0 m.2 (omega arith) moved.0 in
              (r, rw e ends, kept, omega arith)
          | inr e ↦ ((m.0, m.2), rw e, moved.0, ground arith)
        ]

-- With fuel above what the sequence weighs, `Shrink` returns, whatever the replays find and whenever the
-- context expires. What it returns is the failing sequence, or a legal one that a replay saw fail the
-- check of the same ID; and it weighs no more, in ops and in what their faults carry.
pub shrink-returns :
    (lib : Libraries) (env : Environment) (id : String) (failing : Sequence) (w : env.World)
    (fuel : ℕ)
    → weight failing < fuel
    → (r : Sequence × env.World) × (shrink lib env fuel id failing w ≡ some r)
      × ((r.0 ≡ failing) ⊎ Replayed lib env id r.0)
      × (weight r.0 ≤ weight failing)
shrink-returns lib env id failing w fuel h =
    shrink_ends lib env id (λ s. (s ≡ failing) ⊎ Replayed lib env id s) (λ s r. inr r) fuel failing
      w h (inl refl)

module _ (lib : Libraries) (env : Environment) (id : String) where
  open env use {World, expired}

  on_found-eq :
      (Q : Sequence → Type 0) (f g : Sequence → Simplified lib env) (stay : Simplified lib env)
      → (o : Option Sequence) → Found lib env id Q o
      → ((c : Sequence) → Q c → f c ≡ g c)
      → on_found lib env f stay o ≡ on_found lib env g stay o
  on_found-eq Q f g stay none h k = refl
  on_found-eq Q f g stay (some c) h k = k c h.1

  abbrev HasLess : Axis → ℕ → Sequence → Sequence → Type 0
  HasLess a i s c =
      axis_value lib env a (get_elem? c.ops i) < axis_value lib env a (get_elem? s.ops i)

  milder_at-HasLess :
      (a : Axis) (i : ℕ) (s : Sequence) (o : Option Op)
      → get_elem? s.ops i ≡ o
      → (w : World)
      → Found lib env id (HasLess a i s) (try_milder lib env id i s w (milder_op a o)).0
  milder_at-HasLess a i s none e w = tt
  milder_at-HasLess a i s (some o) e w = tried (milder a o) (milder-IsMilder a o)
    where
      tried :
          (m : Option Op)
          → IsMilder a o m
          → Found lib env id (HasLess a i s) (try_milder lib env id i s w m).0
      tried none h = tt
      tried (some m) h =
          let there : get_elem? (set s.ops i m) i ≡ some m =
            get_elem?-set_self s.ops i m (lt-of_get_elem? s.ops i e) in
          reproducing-Found lib env id (HasLess a i s) i s (with_op s i m ∷ []) w
            (rw (there, e) h.1, tt)

-- Any fuel above what the op carries on an axis gives the same halvings along it: the fuel that
-- `weaken` gives its inner loop never runs out.
pub weaken_along-fuel :
    (lib : Libraries) (env : Environment) (id : String) (m n i : ℕ) (a : Axis) (s : Sequence)
    (b : Bool)
    → (w : env.World) → axis_value lib env a (get_elem? s.ops i) < m
    → axis_value lib env a (get_elem? s.ops i) < n
    → weaken_along lib env m id i a s b w ≡ weaken_along lib env n id i a s b w
unfolding weaken_along
weaken_along-fuel lib env id zero n i a s b w h k = absurd (omega arith)
weaken_along-fuel lib env id (suc m) zero i a s b w h k = absurd (omega arith)
weaken_along-fuel lib env id (suc m) (suc n) i a s b w h k =
    let w1 = (env.expired w).1 in
    let found = try_milder lib env id i s w1 (milder_at lib env a i s) in
    let same =
      on_found-eq lib env id (HasLess lib env id a i s)
        (λ c. weaken_along lib env m id i a c true found.1)
        (λ c. weaken_along lib env n id i a c true found.1) (s, b, found.1) found.0
        (milder_at-HasLess lib env id a i s (get_elem? s.ops i) refl w1)
        (λ c less.
          weaken_along-fuel lib env id m n i a c true found.1 (omega arith) (omega arith)) in
    elim (Bool-cases (env.expired w).0) [ inl e ↦ rw e | inr e ↦ rw (e, same) ]
