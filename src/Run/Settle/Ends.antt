-- ===== src/Run/Settle/Ends.antt =====
-- The end of a settle wait, and its answer.
use botbox.Base.{
  ℕ, zero, suc, ◌+◌, ◌≤◌, ◌<◌, ◌≡◌, refl, Bool, true, false, not, Option, none, some, arith,
  if-cases, Bool-cases, inl, inr, ltb, ◌≢◌,
}
use botbox.Clock.{Time, before, later}
use botbox.Run.Settle.{
  Settle, State, failed, read, Environment, Round, converged, expired, halted, error, again,
  held_open, last_change, floored, owed_deadline, slept, expire, is_settled, judge, round,
  wait_from, wait,
}
use botbox.Run.Settle.Answers.{Saw, round-Saw}

module _ (env : Environment) (s : Settle) where
  open env use {World, Error, state, now, stopped, held, owed, sleep}

  -- A run whose clock moves on, where `clock` is what it reads at least. No reading takes it back and each
  -- sleep moves it on. Nothing is owed past `bound`, and the proxy holds each request for `delay` at most.
  pub record IsTimely (bound : Time) (delay : ℕ) (clock : World → Time) : Type 0 where
    pub state_on : (t : Time) (w : World) → clock w ≤ clock (state t w).1
    pub now_on : (w : World) → clock w ≤ clock (now w).1
    pub now_read : (w : World) → clock w ≤ (now w).0
    pub stopped_on : (w : World) → clock w ≤ clock (stopped w).1
    pub held_on : (t : Time) (w : World) → clock w ≤ clock (held t w).1
    pub held_until : (t : Time) (w : World) → t + delay ≤ clock w → (held t w).0.0 ≡ false
    pub released_by : (t : Time) (w : World) → (held t w).0.1 ≤ t + delay
    pub owed_on :
        (deadline : Time) (w : World) → clock w ≤ clock (owed_deadline env s owed deadline w).1
    pub owed_by :
        (deadline : Time) (w : World)
        → (owed_deadline env s owed deadline w).0 ≤ later deadline bound
    pub sleeps : (w : World) → clock w < clock (sleep w).1

  -- When the wait that began then is over at the latest.
  abbrev pub last_call : Time → ℕ → Time → Time
  last_call bound delay start = later (floored env s start) bound + delay + s.settle

  module _ {bound : Time} {delay : ℕ} {clock : World → Time}
      (timely : IsTimely bound delay clock) where
    open timely use {
      state_on, now_on, now_read, stopped_on, held_on, held_until, released_by, owed_on, owed_by,
      sleeps,
    }

    -- A round from `c` on that does not answer moves the clock on, and began before the last call.
    abbrev Goes : Time → ℕ → Round Error × World → Type 0
    Goes start c (again, w) = (c < clock w) × (c < last_call bound delay start)
    Goes start c (converged, w) = Unit
    Goes start c (expired, w) = Unit
    Goes start c (halted, w) = Unit
    Goes start c (error e, w) = Unit

    slept-Goes :
        (start : Time) (c : ℕ) (o : Option Error × World)
        → c < clock o.1
        → c < last_call bound delay start
        → Goes start c (slept env s o)
    slept-Goes start c (none, w) h k = (h, k)
    slept-Goes start c (some e, w) h k = tt

    held_open-le :
        (h : Bool × Time) (deadline t settle limit : ℕ)
        → h.0 ≡ false
        → deadline ≤ limit
        → h.1 + settle ≤ limit
        → held_open h deadline t settle ≤ limit
    unfolding held_open
    held_open-le (false, released) deadline t settle limit e h k = ground arith
    held_open-le (true, released) deadline t settle limit e h k = absurd (cc)

    -- Past the last call a round answers.
    over :
        (start t : Time) (w : World) (c : ℕ)
        → c ≤ t
        → c ≤ clock w
        → let d = owed_deadline env s owed (floored env s start) w in
          before t (held_open (held d.0 d.1).0 d.0 t s.settle) ≡ true
          → c < last_call bound delay start
    over start t w c h k e =
        let d = owed_deadline env s owed (floored env s start) w in
        let call = last_call bound delay start in
        elim (Bool-cases (ltb c call)) [
          | inl b ↦ ground arith
          | inr b ↦
              let due : call ≤ c = ground arith in
              let by = owed_by (floored env s start) w in
              let on = owed_on (floored env s start) w in
              let late : d.0 + delay ≤ clock d.1 = omega arith in
              let released = released_by d.0 d.1 in
              let open_until =
                held_open-le (held d.0 d.1).0 d.0 t s.settle call (held_until d.0 d.1 late)
                  (omega arith) (omega arith) in
              absurd (ground arith)
        ]

    expire-Goes :
        (start t : Time) (w : World) (c : ℕ)
        → c ≤ t
        → c ≤ clock w
        → Goes start c (expire env s start t w)
    unfolding expire
    expire-Goes start t w c h k =
        let d = owed_deadline env s owed (floored env s start) w in
        let (holding, w2) = held d.0 d.1 in
        if-cases (Goes start c) (not (before t (held_open holding d.0 t s.settle))) (expired, w2)
          (slept env s (sleep w2)) (λ e. tt)
          (λ e.
            slept-Goes start c (sleep w2)
              (omega (arith, owed_on (floored env s start) w, held_on d.0 d.1, sleeps w2))
              (over start t w c h k (ground arith)))

    judge-Goes :
        (start : Time) (c : ℕ) (r : State Error × World)
        → c ≤ clock r.1
        → Goes start c (judge env s start r)
    judge-Goes start c (failed e, w) h = tt
    judge-Goes start c (read ready changed, w) h =
        let (t, w1) = now w in
        let (stop, w2) = stopped w1 in
        let (holding, w3) = held t w2 in
        if-cases (Goes start c) stop (halted, w2) _ (λ k. tt)
          (λ k.
            if-cases (Goes start c) (is_settled env s ready (last_change holding changed t) t)
              (converged, w3) _ (λ e. tt)
              (λ e.
                expire-Goes start t w3 c (omega (arith, now_read w))
                  (omega (arith, now_on w, stopped_on w1, held_on t w2))))

    round-Goes : (start : Time) (w : World) → Goes start (clock w) (round env s start w)
    unfolding round
    round-Goes start w = judge-Goes start (clock w) (state start w) (state_on start w)

    -- An answer of the wait: what it saw, and that it is one.
    abbrev pub Answers : Time → Round Error → Type 0
    Answers start v = Saw env s start v × (v ≢ again)

    wait_from-Answers :
        (fuel : ℕ) (start : Time) (w : World)
        → 0 < s.stable
        → 0 < s.settle
        → last_call bound delay start < fuel + clock w
        → 0 < fuel
        → (r : Round Error × World) × (wait_from env s fuel start w ≡ some r) × Answers start r.0
    unfolding wait_from
    wait_from-Answers zero start w p q h k = absurd (omega arith)
    wait_from-Answers (suc fuel) start w p q h k =
        next (round env s start w) refl (round-Saw env s start w p q) (round-Goes start w)
          (λ w' h' k'. wait_from-Answers fuel start w' p q h' k')
      where
        Returns : ℕ → World → Type 0
        Returns n w =
            (r : Round Error × World) × (wait_from env s n start w ≡ some r) × Answers start r.0

        Later : Type 0
        Later =
            (w' : World)
            → last_call bound delay start < fuel + clock w'
            → 0 < fuel
            → Returns fuel w'

        next :
            (r : Round Error × World)
            → round env s start w ≡ r
            → Saw env s start r.0
            → Goes start (clock w) r
            → Later
            → Returns (suc fuel) w
        next (converged, w') e saw g ih = ((converged, w'), rw e refl, (saw, λ c. cc))
        next (expired, w') e saw g ih = ((expired, w'), rw e refl, (saw, λ c. cc))
        next (halted, w') e saw g ih = ((halted, w'), rw e refl, (saw, λ c. cc))
        next (error x, w') e saw g ih = ((error x, w'), rw e refl, (saw, λ c. cc))
        next (again, w') e saw (on, soon) ih =
            let (r, ends, a) = ih w' (omega arith) (omega arith) in (r, rw e ends, a)

    -- A settle wait ends. In a run whose clock moves on, given fuel for each instant until timeouts.settle
    -- past the last release that its deadline allows, it answers, and what it answers is what it saw: it
    -- converged only on a ready, running target that was still for timeouts.stable, past the floor and
    -- with no request held; it expired only past timeouts.settle, the floor, what was owed and the
    -- releases; it halted only where the target stopped, and an error is one that it read.
    pub wait-Answers :
        (fuel : ℕ) (w : World)
        → 0 < s.stable
        → 0 < s.settle
        → last_call bound delay (now w).0 < fuel
        → (r : Round Error × World) × (wait env s fuel w ≡ some r) × Answers (now w).0 r.0
    unfolding wait
    wait-Answers fuel w p q h =
        wait_from-Answers fuel (now w).0 (now w).1 p q (omega arith) (omega arith)
